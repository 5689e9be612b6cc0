-- ===== src/Onedrive/Listing/Pages.antt =====
-- `list_files` of src/vendors/onedrive/onedrive.c over a server that answers with linked pages.
use mathlib.Core.List.{append_assoc, append-nil}
use elastos_net_hive_native.Base.{
  ℕ, zero, suc, ◌≤◌, ◌≡◌, refl, sym, ap, ◌∙◌, false, ◌==◌, Bytes, codes, length, List, [], ◌∷◌,
  ◌++◌, Option, none, some, ℤ, pos, arith,
}
use elastos_net_hive_native.Http.Body.{Body, http_client_move_response_body}
use elastos_net_hive_native.Http.Step.{Res, go}
use elastos_net_hive_native.Http.Client.{own, Net}
use elastos_net_hive_native.Oauth.Token.{OauthToken, Session, Auth}
use elastos_net_hive_native.Api.Connect.{Env, FilesIterateCallback}
use elastos_net_hive_native.Onedrive.Request.{
  Drive, page_request, get_bearer_token-some, request, get_response_code, authorized, expect,
  parsed,
}
use elastos_net_hive_native.Onedrive.Listing.{
  notify_user_files, children_url, item_name, merge_array, array_items, next_link, page, pages,
  close_client, start_list, list_files,
}

-- The names of several pages, in order
abbrev pub all_names : List (List Bytes) → List Bytes
all_names [] = []
all_names (names ∷ pages) = names ++ all_names pages

module _ {W J : Type 0} (net : Net W J) (auth : Auth W J) (drive : Drive W J) where
  -- Items that are entries with these names.
  pub data AreNamed : List J → List Bytes → Type 0 where
    no_items : AreNamed [] []
    item_more :
        {item : J} {name : Bytes} {items : List J} {names : List Bytes}
        → item_name net auth drive item ≡ some name
        → AreNamed items names
        → AreNamed (item ∷ items) (name ∷ names)

  -- A page that the server gives for an address: the names on it, the address of the next page, and
  -- the state behind it.
  pub record Answer (url : Bytes) (s : Session W) (names : List Bytes) (next : Option Bytes)
      (s' : Session W) : Type 0 where
    pub bearer : Bytes
    pub body : Body
    pub json : J
    pub items : List J
    pub has_token : s.token.access_token ≡ some bearer
    pub arrives : net.perform (page_request url bearer) s.outside ≡ ((0, own body), s'.outside)
    pub accepted : net.response_code s'.outside ≡ (0, 200)
    pub some_body : (body.used == 0) ≡ false
    pub parses : net.parse body.stored ≡ some json
    pub has_items : array_items net auth drive (net.get_item json (codes "value")) ≡ some items
    pub named : AreNamed items names
    pub has_next :
        next_link net auth drive (net.get_item json (codes "@odata.nextLink")) ≡ some next
    pub same_token : s'.token ≡ s.token

  -- A chain of pages, from an address to a page without a link.
  pub data Served : Bytes → Session W → List (List Bytes) → Session W → Type 0 where
    last_page :
        {url : Bytes} {s s' : Session W} {names : List Bytes}
        → Answer url s names none s'
        → Served url s (names ∷ []) s'
    next_page :
        {url next : Bytes} {s s' s'' : Session W} {names : List Bytes} {rest : List (List Bytes)}
        → Answer url s names (some next) s'
        → Served next s' rest s''
        → Served url s (names ∷ rest) s''

  merge_array-AreNamed :
      (items : List J) (names array : List Bytes)
      → AreNamed items names
      → merge_array net auth drive items array ≡ some (array ++ names)
  unfolding merge_array
  merge_array-AreNamed [] [] array no_items = ap some (sym (append-nil array))
  merge_array-AreNamed [] (name ∷ names) array x = elim x [ ]
  merge_array-AreNamed (item ∷ items) [] array x = elim x [ ]
  merge_array-AreNamed (item ∷ items) (name ∷ names) array (item_more is named) =
      rw (merge_array, is)
        (merge_array-AreNamed items names (array ++ name ∷ []) named
          ∙ ap some (append_assoc array (name ∷ []) names))

  page-Answer :
      (url : Bytes) (array names : List Bytes) (next : Option Bytes) (s s' : Session W)
      → Answer url s names next s'
      → page net auth drive url array s ≡ (go (array ++ names, next), s')
  unfolding page request get_response_code authorized expect parsed http_client_move_response_body
  page-Answer url array names next s s' a =
      let state : Session W → Res (List Bytes × Option Bytes) × Session W =
        λ t. (go (array ++ names, next), t) in
      let merged = merge_array-AreNamed a.items names array a.named in
      rw
        (
          get_bearer_token-some net auth drive s a.bearer a.has_token,
          a.arrives,
          a.accepted,
          a.some_body,
          a.parses,
          a.has_items,
          merged,
          a.has_next,
        )
        (ap (λ (t : OauthToken). state (record s' { token = t })) (sym a.same_token))

  pages-Served :
      (callback : FilesIterateCallback (Session W)) (fuel : ℕ) (url : Bytes) (array : List Bytes)
      (served : List (List Bytes)) (e : Env (Session W)) (s' : Session W)
      → Served url e.world served s'
      → length served ≤ fuel
      → pages net auth drive callback fuel url array e ≡ (
        some (pos 0),
        notify_user_files (array ++ all_names served) callback (record e { world = s' }),
      )
  unfolding pages
  pages-Served callback zero url array [] e s' x enough = elim x [ ]
  pages-Served callback zero url array (names ∷ served) e s' x enough = absurd (omega arith)
  pages-Served callback (suc fuel) url array [] e s' x enough = elim x [ ]
  pages-Served callback (suc fuel) url array (names ∷ []) e s' (last_page a) enough =
      rw (page-Answer url array names none e.world s' a, append-nil names) refl
  pages-Served callback (suc fuel) url array (names ∷ served) e s' (next_page {next} {s' = mid} a x)
        enough =
      let told : List Bytes → Option ℤ × Env (Session W) =
        λ all. (some (pos 0), notify_user_files all callback (record e { world = s' })) in
      rw (page-Answer url array names (some next) e.world mid a) (
        pages-Served callback fuel next (array ++ names) served (record e { world = mid }) s' x
          (omega arith)
        ∙ ap told (append_assoc array names (all_names served)))

  -- If the token is valid, a client and an array can be made, and the server gives a chain of n pages
  -- of entries: with rounds for n pages or more, `list_files` ends and returns 0, and the callback is
  -- told the names of all pages in order, until it asks to stop, and NULL behind the last.
  pub list_files-Served :
      (callback : FilesIterateCallback (Session W)) (fuel : ℕ) (served : List (List Bytes))
      (e : Env (Session W)) (s s' : Session W)
      → start_list net auth drive e.world ≡ (go tt, s)
      → Served children_url s served s'
      → length served ≤ fuel
      → list_files net auth drive fuel callback e
        ≡ close_client net auth drive
            (some (pos 0), notify_user_files (all_names served) callback (record e { world = s' }))
  unfolding list_files
  list_files-Served callback fuel served e s s' started x enough =
      let told =
        pages-Served callback fuel children_url [] served (record e { world = s }) s' x enough in
      rw started (ap (close_client net auth drive) told)

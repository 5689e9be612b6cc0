-- ===== src/Onedrive/Listing.antt =====
-- `list_files` of src/vendors/onedrive/onedrive.c: the names of all files, which the server gives in
-- pages that are linked.
pub mod Pages
use elastos_net_hive_native.Base.{
  ℕ, zero, suc, Bool, true, false, not, ◌&&◌, ◌||◌, ◌==◌, Bytes, codes, List, [], ◌∷◌, ◌++◌, Option,
  none, some, is_some, ℤ, pos, is_neg, if◌then◌else◌,
}
use elastos_net_hive_native.Error.Code.{as_int, hiveerr_out_of_memory, hiveerr_bad_json_format}
use elastos_net_hive_native.Http.Body.{http_client_move_response_body}
use elastos_net_hive_native.Http.Step.{
  Res, ret, go, Step, ◌>>=◌, ◌>>◌, return_if, return_after, need, step, continue,
}
use elastos_net_hive_native.Http.Client.{Net}
use elastos_net_hive_native.Ipfs.Connect.{own_body}
use elastos_net_hive_native.Oauth.Token.{Session, Auth, outer}
use elastos_net_hive_native.Api.Connect.{Env, Action, call, FilesIterateCallback}
use elastos_net_hive_native.Onedrive.Request.{
  Drive, app_root, files_dir, is_ok, page_request, close, check_token, new_http, get_bearer_token,
  request, expect, parsed, general,
}
use elastos_net_hive_native.Onedrive.Put.{text_item}

-- What the callback is told: each name in order until it asks to stop, and NULL behind the last.
unfoldable pub notify_user_files :
    {W : Type 0} → List Bytes → FilesIterateCallback W → Env W → Env W
notify_user_files [] callback e = (callback none e).1
notify_user_files (name ∷ names) callback e =
    let (resume, e') = callback (some name) e in
    let rest = notify_user_files names callback e' in if resume then rest else e'

-- The address of the first page
abbrev pub children_url : Bytes
children_url = app_root ++ codes ":" ++ files_dir ++ codes ":/children"

module _ {W J : Type 0} (net : Net W J) (auth : Auth W J) (drive : Drive W J) where
  abbrev S : Type 0
  S = Session W

  abbrev is_present_object : Option J → Bool
  is_present_object none = true
  is_present_object (some item) = net.is_object item

  -- An item is a file or a folder, and not both.
  abbrev pub is_entry : Option J → Option J → Bool
  is_entry file folder =
      not (is_some file && is_some folder || not (is_some file) && not (is_some folder))
      && is_present_object file
      && is_present_object folder

  abbrev pub item_name : J → Option Bytes
  item_name item =
      if is_entry (net.get_item item (codes "file")) (net.get_item item (codes "folder"))
      then text_item net auth drive (net.get_item item (codes "name"))
      else none

  -- The loop moves the items to `array`, of which only the names are read later; `none` is an item
  -- that is no entry.
  unfoldable pub merge_array : List J → List Bytes → Option (List Bytes)
  merge_array [] array = some array
  merge_array (item ∷ items) array = elim (item_name item) [
    | none ↦ none
    | some name ↦ merge_array items (array ++ name ∷ [])
  ]

  abbrev pub array_items : Option J → Option (List J)
  array_items none = none
  array_items (some value) = if drive.is_array value then some (drive.items value) else none

  -- The link to the next page: a member that is there has to be a text.
  abbrev pub next_link : Option J → Option (Option Bytes)
  next_link none = some none
  next_link (some link) = elim (text_item net auth drive (some link)) [
    | none ↦ none
    | some url ↦ some (some url)
  ]

  -- A round of the loop; it returns where the loop is left by an error.
  unfoldable pub page : Bytes → List Bytes → Step S (List Bytes × Option Bytes)
  unfolding get_bearer_token request expect parsed merge_array
  page next_url array = do
    bearer ← get_bearer_token net auth drive
    sink ← request net auth drive (page_request next_url bearer)
    expect net auth drive is_ok
    json ← parsed net auth drive (http_client_move_response_body (own_body sink) false)
    sub_array ←
        need (array_items (net.get_item json (codes "value")))
          (general net auth drive hiveerr_bad_json_format)
    array ← need (merge_array sub_array array) (general net auth drive hiveerr_bad_json_format)
    link ←
        need (next_link (net.get_item json (codes "@odata.nextLink")))
          (general net auth drive hiveerr_bad_json_format)
    continue (array, link)

  abbrev pub Rounds : Type 0
  Rounds = Bytes → List Bytes → Env S → Option ℤ × Env S

  abbrev pub after_page :
      FilesIterateCallback S → Rounds → Res (List Bytes × Option Bytes) × Env S → Option ℤ × Env S
  after_page callback rest (ret r, e) = (some r, e)
  after_page callback rest (go (array, none), e) =
      (some (pos 0), notify_user_files array callback e)
  after_page callback rest (go (array, some url), e) = rest url array e

  -- while (next_url) { … }; `none` is a loop that has not ended.
  unfoldable pub pages : FilesIterateCallback S → ℕ → Rounds
  unfolding page notify_user_files
  pages callback zero url array e = (none, e)
  pages callback (suc fuel) url array e =
      after_page callback (pages callback fuel) (call (page url array) e)

  abbrev pub close_client : {A : Type 0} → A × Env S → A × Env S
  close_client (a, e) = (a, record e { world = close net auth drive e.world })

  abbrev pub list_from : FilesIterateCallback S → ℕ → Res (Unit {0}) × Env S → Option ℤ × Env S
  list_from callback fuel (ret r, e) = (some r, e)
  list_from callback fuel (go u, e) = close_client (pages callback fuel children_url [] e)

  -- Up to the loop
  unfoldable pub start_list : Step S (Unit {0})
  unfolding check_token
  start_list = do
    check_token net auth drive
    new_http net auth drive (general net auth drive hiveerr_out_of_memory)
    made ← step (outer net auth drive.create_array)
    return_after (not made) (close net auth drive) (general net auth drive hiveerr_out_of_memory)

  unfoldable pub list_files : ℕ → FilesIterateCallback S → Env S → Option ℤ × Env S
  unfolding start_list pages
  list_files fuel callback e = list_from callback fuel (call start_list e)

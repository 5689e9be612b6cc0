-- ===== src/Http/Handle/Balanced.antt =====
-- What the functions of src/http/http_client.c do to the number of resources that are held.
use elastos_net_hive_native.Base.{
  ℕ, ◌+◌, ◌-◌, ◌%◌, ◌==◌, ◌≡◌, refl, ◌∙◌, ap, Bool, true, false, ltb, Bytes, List, [], ◌∷◌, ◌++◌,
  codes, Option, none, some, is_some, Bool-cases, inl, inr, if◌then◌else◌, arith,
}
use elastos_net_hive_native.Http.Body.{new_size, size_mod}
use elastos_net_hive_native.Http.Handle.{
  CurlOption, httpheader, mimepost, Part, url_part, Libcurl, Handle, zeroed, when, setopts,
  defaults, http_client_destroy, http_client_close, with_easy, with_url, with_memory,
  http_client_new, http_client_reset, http_client_set_header, regrow,
  http_response_body_write_callback, http_client_move_response_body, http_client_request,
  http_client_set_mime_instant,
}

abbrev pub bit : Bool → ℕ
bit true = 1
bit false = 0

-- `n` and the resources of a client
abbrev pub total : ℕ → Handle → ℕ
total n c = n + bit c.mime + bit c.hdr + bit c.url + bit c.curl + bit c.block

-- How libcurl and the memory count: what is given is one more, what is given back is one less.
module _ {W : Type 0} (held : W → ℕ) where
  abbrev pub Gives : (W → Bool × W) → Type 0
  Gives f = (w : W) → held (f w).1 ≡ held w + bit (f w).0

  abbrev pub Frees : (W → W) → Type 0
  Frees f = (w : W) (n : ℕ) → held w ≡ n + 1 → held (f w) ≡ n

  abbrev pub Leaves : {A : Type 0} → (W → A × W) → Type 0
  Leaves f = (w : W) → held (f w).1 ≡ held w

  -- A block or a list that is there is replaced.
  abbrev pub Replaces : (Bool → W → Bool × W) → Type 0
  Replaces f =
      (there : Bool) (w : W)
      → (((f there w).0 ≡ true) → held (f there w).1 + bit there ≡ held w + 1)
        × (((f there w).0 ≡ false) → held (f there w).1 ≡ held w)

pub record Counts {W : Type 0} (lib : Libcurl W) (held : W → ℕ) : Type 0 where
  pub global_init : Leaves held lib.global_init
  pub rc_zalloc : Gives held lib.rc_zalloc
  pub release : Frees held lib.release
  pub curl_url : Gives held lib.curl_url
  pub url_cleanup : Frees held lib.url_cleanup
  pub easy_init : Gives held lib.easy_init
  pub easy_cleanup : Frees held lib.easy_cleanup
  pub easy_reset : (w : W) → held (lib.easy_reset w) ≡ held w
  pub setopt : (option : CurlOption) → Leaves held (lib.setopt option)
  pub url_set : (part : Part) (text : Option Bytes) → Leaves held (lib.url_set part text)
  pub url_get :
      (part : Part) (w : W)
      → held (lib.url_get part w).1 ≡ held w + bit ((lib.url_get part w).0 == 0)
  pub slist_append : (text : Bytes) → Replaces held (λ there. lib.slist_append there text)
  pub slist_free_all : Frees held lib.slist_free_all
  pub mime_init : Gives held lib.mime_init
  pub mime_part :
      (name : Bytes) (buffer : Option Bytes) (bufsz : ℕ) (w : W)
      → held (lib.mime_part name buffer bufsz w) ≡ held w
  pub mime_free : Frees held lib.mime_free
  pub realloc : (size : ℕ) → Replaces held (λ there. lib.realloc there size)
  pub free : Frees held lib.free
  pub perform : Leaves held lib.perform
  pub response_code : Leaves held lib.response_code
  pub escape :
      (text : Bytes) (w : W)
      → held (lib.escape text w).1 ≡ held w + bit (is_some (lib.escape text w).0)
  pub unescape :
      (text : Bytes) (w : W)
      → held (lib.unescape text w).1 ≡ held w + bit (is_some (lib.unescape text w).0)
  pub curl_free : Frees held lib.curl_free

module _ {W : Type 0} (lib : Libcurl W) (held : W → ℕ) (counts : Counts lib held) where
  when-Frees :
      (f : W → W)
      → Frees held f
      → (b : Bool) (n : ℕ) (w : W) → held w ≡ n + bit b
      → held (when b f w) ≡ n
  when-Frees f frees true n w h = frees w n h
  when-Frees f frees false n w h = omega (arith, h)

  when-Leaves :
      (f : W → W)
      → ((w : W) → held (f w) ≡ held w)
      → (b : Bool) (w : W) → held (when b f w) ≡ held w
  when-Leaves f leaves true w = leaves w
  when-Leaves f leaves false w = refl

  pub setopts-Leaves : (options : List CurlOption) (w : W) → held (setopts lib options w) ≡ held w
  setopts-Leaves [] w = refl
  setopts-Leaves (option ∷ options) w =
      setopts-Leaves options (lib.setopt option w).1 ∙ counts.setopt option w

  destroy-Frees :
      (n : ℕ) (c : Handle) (w : W) → held w ≡ total n c → held (http_client_destroy lib c w) ≡ n
  unfolding http_client_destroy
  destroy-Frees n c w h = when-Frees lib.mime_free counts.mime_free c.mime _ _ (
      when-Frees lib.slist_free_all counts.slist_free_all c.hdr _ _ (
        when-Frees lib.url_cleanup counts.url_cleanup c.url _ _ (
          when-Frees lib.easy_cleanup counts.easy_cleanup c.curl _ _
            (when-Frees lib.free counts.free c.block _ w h))))

  pub close-Frees :
      (n : ℕ) (c : Handle) (w : W)
      → held w ≡ total (n + 1) c
      → held (http_client_close lib (some c) w) ≡ n
  unfolding http_client_close
  close-Frees n c w h = counts.release _ n (destroy-Frees (n + 1) c w h)

  -- A new client has its own memory and what it holds, or nothing.
  abbrev pub Made : ℕ → Option Handle × W → Type 0
  Made n (none, w) = held w ≡ n
  Made n (some c, w) = held w ≡ total (n + 1) c

  abbrev with_a_url : Handle
  with_a_url = record zeroed { url = true }

  with_easy-Made :
      (n : ℕ) (x : Bool × W) → held x.1 ≡ n + 2 + bit x.0 → Made n (with_easy lib with_a_url x)
  with_easy-Made n (false, w) h = close-Frees n with_a_url w (omega (arith, h))
  with_easy-Made n (true, w) h = setopts-Leaves (defaults lib) w ∙ omega (arith, h)

  with_url-Made :
      (n : ℕ) (x : Bool × W) → held x.1 ≡ n + 1 + bit x.0 → Made n (with_url lib zeroed x)
  with_url-Made n (false, w) h = close-Frees n zeroed w (omega (arith, h))
  with_url-Made n (true, w) h =
      with_easy-Made n (lib.easy_init w) (omega (arith, h, counts.easy_init w))

  pub with_memory-Made :
      (n : ℕ) (x : Bool × W) → held x.1 ≡ n + bit x.0 → Made n (with_memory lib x)
  with_memory-Made n (false, w) h = omega (arith, h)
  with_memory-Made n (true, w) h =
      with_url-Made n (lib.curl_url w) (omega (arith, h, counts.curl_url w))

  pub new-Made :
      (initialized : Bool) (w : W)
      → Made
          (held w)
          ((http_client_new lib initialized w).0.1, (http_client_new lib initialized w).1)
  unfolding http_client_new
  new-Made true w = with_memory-Made (held w) (lib.rc_zalloc w) (counts.rc_zalloc w)
  new-Made false w =
      let (rc, w1) = lib.global_init w in
      let same : held w1 ≡ held w = counts.global_init w in
      elim (Bool-cases (rc == 0)) [
        | inl ok ↦ rw ok (
            with_memory-Made (held w) (lib.rc_zalloc w1) (omega (arith, same, counts.rc_zalloc w1)))
        | inr failed ↦ rw failed same
      ]

  pub reset-total :
      (n : ℕ) (c : Handle) (w : W)
      → held w ≡ total n c
      → held (http_client_reset lib c w).1 ≡ total n (http_client_reset lib c w).0
  unfolding http_client_reset
  reset-total n c w h =
      let w1 = (lib.url_set url_part none (lib.easy_reset w)).1 in
      let rest = n + bit c.url + bit c.curl + bit c.block in
      let same : held w1 ≡ held w =
        counts.url_set url_part none (lib.easy_reset w) ∙ counts.easy_reset w in
      let freed = when-Frees lib.mime_free counts.mime_free c.mime rest _ (
        when-Frees lib.slist_free_all counts.slist_free_all c.hdr (rest + bit c.mime) w1
          (omega (arith, h, same))) in
      setopts-Leaves (defaults lib) _ ∙ omega (arith, freed)

  pub set_header-total :
      (n : ℕ) (name value : Bytes) (c : Handle) (w : W)
      → held w ≡ total n c
      → held (http_client_set_header lib name value c w).1
        ≡ total n (http_client_set_header lib name value c w).0.1
  unfolding http_client_set_header
  set_header-total n name value c w h =
      let text = name ++ codes ": " ++ value in
      let (grows, keeps) = counts.slist_append text c.hdr w in
      elim (Bool-cases (lib.slist_append c.hdr text w).0) [
        | inl ok ↦ rw ok (omega (arith, h, grows ok))
        | inr failed ↦ rw failed (omega (arith, h, keeps failed))
      ]

  regrow-total :
      (n len : ℕ) (o : Option ℕ) (c : Handle) (w : W)
      → held w ≡ total n c
      → held (regrow lib len o c w).1 ≡ total n (regrow lib len o c w).0.1
  regrow-total n len none c w h = h
  regrow-total n len (some new_sz) c w h =
      let (grows, keeps) = counts.realloc new_sz c.block w in
      elim (Bool-cases (lib.realloc c.block new_sz w).0) [
        | inl ok ↦ rw ok (omega (arith, h, grows ok))
        | inr failed ↦ rw failed (omega (arith, h, keeps failed))
      ]

  pub write_callback-total :
      (n len : ℕ) (c : Handle) (w : W)
      → held w ≡ total n c
      → held (http_response_body_write_callback lib len c w).1
        ≡ total n (http_response_body_write_callback lib len c w).0.1
  unfolding http_response_body_write_callback
  write_callback-total n len c w h =
      elim (Bool-cases (ltb ((c.sz + size_mod - c.used) % size_mod) len)) [
        | inr fits ↦ rw fits h
        | inl full ↦ elim (Bool-cases (ltb ((c.sz + len) % size_mod) c.sz)) [
          | inl wraps ↦ rw (full, wraps) h
          | inr grows ↦ rw (full, grows) (regrow-total n len (new_size c.sz len) c w h)
        ]
      ]

  -- Of the block that is handed over; without one, a length that is not there is stored through NULL.
  abbrev pub Handed : Bool → ℕ → W → Option (ℕ × Handle) → Type 0
  Handed has_len n w none = has_len ≡ false
  Handed has_len n w (some (m, c)) = held w ≡ total (n + m) c

  pub move-total :
      (has_len : Bool) (n : ℕ) (c : Handle) (w : W)
      → held w ≡ total n c
      → Handed has_len n w (http_client_move_response_body lib has_len c)
  unfolding http_client_move_response_body
  move-total has_len n c w h = elim (Bool-cases (c.used == 0)) [
    | inl empty ↦ elim (Bool-cases has_len) [
      | inl there ↦ rw (empty, there) (omega (arith, h))
      | inr missing ↦ rw (empty, missing) refl
    ]
    | inr some_bytes ↦ rw some_bytes (moved c.block h)
  ]
    where
      moved :
          (b : Bool)
          → held w ≡ n + bit c.mime + bit c.hdr + bit c.url + bit c.curl + bit b
          → held w ≡ n + (if b then 1 else 0) + bit c.mime + bit c.hdr + bit c.url + bit c.curl + 0
      moved true h' = omega (arith, h')
      moved false h' = omega (arith, h')

  pub set_mime-total :
      (n : ℕ) (name : Bytes) (buffer : Option Bytes) (bufsz : ℕ) (c : Handle) (w : W)
      → held w ≡ total n c
      → held (http_client_set_mime_instant lib name buffer bufsz c w).1
        ≡ total n (http_client_set_mime_instant lib name buffer bufsz c w).0
  unfolding http_client_set_mime_instant
  set_mime-total n name buffer bufsz c w h = elim (Bool-cases c.mime) [
    | inl there ↦
        let is_there = ap bit there in
        rw there (omega (arith, h, is_there, counts.mime_part name buffer bufsz w))
    | inr missing ↦
        let none_yet = ap bit missing in
        rw missing (
          omega (
            arith,
            h,
            none_yet,
            counts.mime_init w,
            counts.mime_part name buffer bufsz (lib.mime_init w).1,
          ))
  ]

  pub request-Leaves : (c : Handle) (w : W) → held (http_client_request lib c w).1 ≡ held w
  unfolding http_client_request
  request-Leaves c w =
      let w1 = when c.hdr (setopts lib (httpheader ∷ [])) w in
      counts.perform _
      ∙ when-Leaves (setopts lib (mimepost ∷ [])) (setopts-Leaves (mimepost ∷ [])) c.mime w1
      ∙ when-Leaves (setopts lib (httpheader ∷ [])) (setopts-Leaves (httpheader ∷ [])) c.hdr w

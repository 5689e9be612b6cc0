-- ===== src/Http/Handle.antt =====
-- The HTTP client of src/http/http_client.c as it holds the resources of libcurl and of the memory:
-- what each function gets, keeps and gives back.

pub mod Balanced
pub mod Session
use elastos_net_hive_native.Base.{
  ℕ, ◌+◌, ◌-◌, ◌%◌, Bool, true, false, ◌&&◌, not, ◌==◌, ltb, Bytes, codes, List, [], ◌∷◌, ◌++◌,
  Option, none, some, is_some, if◌then◌else◌,
}
use elastos_net_hive_native.Http.Body.{size_mod, new_size}
use elastos_net_hive_native.Http.Client.{HttpMethod, get, post, put, delete, patch}

-- What `curl_easy_setopt` sets; a callback has its data behind it.
pub data CurlOption : Type 0 where
  debugfunction verbose curlu nosignal httpget post_request upload : CurlOption
  eat_output own_body writefunction writedata : CurlOption
  readfunction readdata headerfunction headerdata httpheader mimepost : CurlOption
  customrequest : Bytes → CurlOption
  timeout http_version postfieldsize : ℕ → CurlOption
  postfields : Option Bytes → CurlOption

-- The parts of a URL
pub data Part : Type 0 where
  url_part scheme_part host_part port_part path_part query_part : Part

-- libcurl and the memory; a Bool says that a call has given no NULL, a number is the code of libcurl.
pub record Libcurl (W : Type 0) : Type 0 where
  pub global_init : W → ℕ × W
  -- The memory of the client, given by rc_zalloc and given back by the last deref
  pub rc_zalloc : W → Bool × W
  pub release : W → W
  pub curl_url : W → Bool × W
  pub url_cleanup : W → W
  pub easy_init : W → Bool × W
  pub easy_cleanup : W → W
  pub easy_reset : W → W
  pub setopt : CurlOption → W → ℕ × W
  -- The flags of these two are left out: they do not change what is held.
  pub url_set : Part → Option Bytes → W → ℕ × W
  -- A text is given with the code 0.
  pub url_get : Part → W → ℕ × W
  -- curl_slist_append, to a list that is there or not
  pub slist_append : Bool → Bytes → W → Bool × W
  pub slist_free_all : W → W
  pub mime_init : W → Bool × W
  -- curl_mime_addpart and what is set of the part
  pub mime_part : Bytes → Option Bytes → ℕ → W → W
  pub mime_free : W → W
  -- realloc, of a block that is there or not
  pub realloc : Bool → ℕ → W → Bool × W
  pub free : W → W
  pub perform : W → ℕ × W
  pub response_code : W → (ℕ × ℕ) × W
  pub escape : Bytes → W → Option Bytes × W
  pub unescape : Bytes → W → Option Bytes × W
  pub curl_free : W → W

-- `struct http_client`: which pointers are not NULL, and the numbers of `response_body`.
pub record Handle : Type 0 where
  pub curl : Bool
  pub url : Bool
  pub hdr : Bool
  pub mime : Bool
  pub block : Bool
  pub used : ℕ
  pub sz : ℕ

abbrev zeroed : Handle
zeroed = record {
  curl = false;
  url = false;
  hdr = false;
  mime = false;
  block = false;
  used = 0;
  sz = 0;
}

abbrev pub when : {W : Type 0} → Bool → (W → W) → W → W
when test f w = if test then f w else w

module _ {W : Type 0} (lib : Libcurl W) where
  abbrev pub setopts : List CurlOption → W → W
  setopts [] w = w
  setopts (option ∷ options) w = setopts options (lib.setopt option w).1

  abbrev pub defaults : List CurlOption
  defaults = debugfunction ∷ verbose ∷ eat_output ∷ curlu ∷ nosignal ∷ []

  unfoldable pub http_client_destroy : Handle → W → W
  http_client_destroy c w = when c.mime lib.mime_free (
      when c.hdr lib.slist_free_all
        (when c.url lib.url_cleanup (when c.curl lib.easy_cleanup (when c.block lib.free w))))

  -- deref(client), of the only reference
  unfoldable pub http_client_close : Option Handle → W → W
  unfolding http_client_destroy
  http_client_close none w = w
  http_client_close (some c) w = lib.release (http_client_destroy c w)

  abbrev pub with_easy : Handle → Bool × W → Option Handle × W
  with_easy c (false, w) = (none, http_client_close (some c) w)
  with_easy c (true, w) = (some (record c { curl = true }), setopts defaults w)

  abbrev pub with_url : Handle → Bool × W → Option Handle × W
  with_url c (false, w) = (none, http_client_close (some c) w)
  with_url c (true, w) = with_easy (record c { url = true }) (lib.easy_init w)

  abbrev pub with_memory : Bool × W → Option Handle × W
  with_memory (false, w) = (none, w)
  with_memory (true, w) = with_url zeroed (lib.curl_url w)

  -- The static `initialized`, before and after
  unfoldable pub http_client_new : Bool → W → (Bool × Option Handle) × W
  unfolding http_client_close
  http_client_new initialized w =
      let (rc, w1) = lib.global_init w in
      let (c, w2) = with_memory (lib.rc_zalloc (if initialized then w else w1)) in
      if not initialized && not (rc == 0) then ((false, none), w1) else ((true, c), w2)

  unfoldable pub http_client_reset : Handle → W → Handle × W
  http_client_reset c w =
      let w1 = (lib.url_set url_part none (lib.easy_reset w)).1 in
      let w2 = when c.mime lib.mime_free (when c.hdr lib.slist_free_all w1) in
      (record c { hdr = false; mime = false; used = 0 }, setopts defaults w2)

  unfoldable pub http_client_set_method : HttpMethod → W → ℕ × W
  http_client_set_method get = lib.setopt httpget
  http_client_set_method post = lib.setopt post_request
  http_client_set_method put = lib.setopt (customrequest (codes "PUT"))
  http_client_set_method delete = lib.setopt (customrequest (codes "DELETE"))
  http_client_set_method patch = lib.setopt (customrequest (codes "PATCH"))

  -- http_client_set_url is the same but for a flag.
  unfoldable pub http_client_set_url_escape : Bytes → W → ℕ × W
  http_client_set_url_escape text = lib.url_set url_part (some text)

  unfoldable pub http_client_set_path : Bytes → W → ℕ × W
  http_client_set_path path = lib.url_set path_part (some path)

  unfoldable pub http_client_set_query : Bytes → Bytes → W → ℕ × W
  http_client_set_query name value = lib.url_set query_part (some (name ++ codes "=" ++ value))

  -- http_client_get_url_escape, http_client_get_scheme and the like: the caller is given a text.
  unfoldable pub get_part : Part → W → (ℕ × ℕ) × W
  get_part part w = let (rc, w') = lib.url_get part w in ((rc, if rc == 0 then 1 else 0), w')

  -- CURLE_OUT_OF_MEMORY
  unfoldable pub http_client_set_header : Bytes → Bytes → Handle → W → (ℕ × Handle) × W
  http_client_set_header name value c w =
      let (ok, w') = lib.slist_append c.hdr (name ++ codes ": " ++ value) w in
      if ok then ((0, record c { hdr = true }), w') else ((27, c), w')

  unfoldable pub http_client_set_timeout : ℕ → W → ℕ × W
  http_client_set_timeout seconds = lib.setopt (timeout seconds)

  unfoldable pub http_client_set_version : ℕ → W → ℕ × W
  http_client_set_version version = lib.setopt (http_version version)

  unfoldable pub http_client_set_request_body_instant : Option Bytes → ℕ → W → ℕ × W
  http_client_set_request_body_instant bytes len w =
      (0, setopts (postfields bytes ∷ postfieldsize len ∷ []) w)

  unfoldable pub http_client_set_request_body : W → ℕ × W
  http_client_set_request_body w = (0, setopts (upload ∷ readfunction ∷ readdata ∷ []) w)

  unfoldable pub http_client_set_response_body : W → ℕ × W
  http_client_set_response_body w = (0, setopts (writefunction ∷ writedata ∷ []) w)

  unfoldable pub http_client_enable_response_body : W → ℕ × W
  http_client_enable_response_body w = (0, setopts (own_body ∷ writedata ∷ []) w)

  unfoldable pub http_client_set_response_header : W → ℕ × W
  http_client_set_response_header w = (0, setopts (headerfunction ∷ headerdata ∷ []) w)

  -- What `realloc` has made of the block
  abbrev pub regrown : ℕ → ℕ → Handle → Bool × W → (ℕ × Handle) × W
  regrown len new_sz c (false, w) = ((0, record c { used = 0 }), w)
  regrown len new_sz c (true, w) =
      ((len, record c { block = true; sz = new_sz; used = c.used + len }), w)

  abbrev pub regrow : ℕ → Option ℕ → Handle → W → (ℕ × Handle) × W
  regrow len none c w = ((0, c), w)
  regrow len (some new_sz) c w = regrown len new_sz c (lib.realloc c.block new_sz w)

  -- The callback that stores a chunk of this length
  unfoldable pub http_response_body_write_callback : ℕ → Handle → W → (ℕ × Handle) × W
  unfolding new_size
  http_response_body_write_callback len c w =
      if ltb ((c.sz + size_mod - c.used) % size_mod) len
      then (if ltb ((c.sz + len) % size_mod) c.sz
          then ((0, record c { used = 0 }), w)
          else regrow len (new_size c.sz len) c w)
      else ((len, record c { used = c.used + len }), w)

  -- The block that the caller is given, if there is something in it; if not, the length is stored
  -- through the caller's pointer, and `none` is a store through NULL.
  unfoldable pub http_client_move_response_body : Bool → Handle → Option (ℕ × Handle)
  http_client_move_response_body has_len c =
      if c.used == 0
      then (if has_len then some (0, c) else none)
      else some (if c.block then 1 else 0, record c { block = false; used = 0; sz = 0 })

  unfoldable pub http_client_request : Handle → W → ℕ × W
  http_client_request c w =
      lib.perform (when c.mime (setopts (mimepost ∷ [])) (when c.hdr (setopts (httpheader ∷ [])) w))

  unfoldable pub http_client_get_response_code : W → (ℕ × ℕ) × W
  http_client_get_response_code = lib.response_code

  abbrev pub given : Option Bytes × W → ℕ × W
  given (text, w) = (if is_some text then 1 else 0, w)

  -- The text that the caller is given
  unfoldable pub http_client_escape : Bytes → W → ℕ × W
  http_client_escape text w = given (lib.escape text w)

  unfoldable pub http_client_unescape : Bytes → W → ℕ × W
  http_client_unescape text w = given (lib.unescape text w)

  unfoldable pub http_client_memory_free : W → W
  http_client_memory_free = lib.curl_free

  unfoldable pub http_client_set_mime_instant : Bytes → Option Bytes → ℕ → Handle → W → Handle × W
  http_client_set_mime_instant name buffer bufsz c w =
      let (made, w') = lib.mime_init w in
      if c.mime
      then (c, lib.mime_part name buffer bufsz w)
      else (record c { mime = made }, lib.mime_part name buffer bufsz w')

-- ===== src/Http/Handle/Session.antt =====
-- A client of src/http/http_client.c from its making to its end, with any calls between.
use elastos_net_hive_native.Base.{
  ℕ, suc, zero, ◌+◌, ◌≡◌, refl, ◌∙◌, Bool, true, false, not, ◌||◌, Bytes, List, [], ◌∷◌, Option,
  none, some, if◌then◌else◌, arith,
}
use elastos_net_hive_native.Http.Client.{HttpMethod, get, post, put, delete, patch}
use elastos_net_hive_native.Http.Handle.{
  CurlOption, upload, readfunction, readdata, writefunction, writedata, own_body, headerfunction,
  headerdata, postfields, postfieldsize, setopts, Part, Libcurl, Handle, http_client_close,
  http_client_new, http_client_reset, http_client_set_method, http_client_set_url_escape,
  http_client_set_path, http_client_set_query, get_part, http_client_set_header,
  http_client_set_timeout, http_client_set_version, http_client_set_request_body_instant,
  http_client_set_request_body, http_client_set_response_body, http_client_enable_response_body,
  http_client_set_response_header, http_response_body_write_callback,
  http_client_move_response_body, http_client_request, http_client_get_response_code,
  http_client_escape, http_client_unescape, http_client_memory_free, http_client_set_mime_instant,
}
use elastos_net_hive_native.Http.Handle.Balanced.{
  bit, total, Counts, Made, Handed, close-Frees, new-Made, reset-total, set_header-total,
  write_callback-total, move-total, set_mime-total, request-Leaves, setopts-Leaves,
}

-- A call of a function on a client. A chunk arrives when libcurl calls the client's own callback.
pub data Call : Type 0 where
  reset set_request_body set_response_body enable_response_body : Call
  set_response_header request get_response_code memory_free : Call
  -- With a pointer for the length, or NULL
  move_response_body : Bool → Call
  set_method : HttpMethod → Call
  set_url set_path : Bytes → Call
  set_query : Bytes → Bytes → Call
  get_text : Part → Call
  set_header : Bytes → Bytes → Call
  set_timeout set_version chunk : ℕ → Call
  set_request_body_instant : Option Bytes → ℕ → Call
  escape unescape : Bytes → Call
  set_mime : Bytes → Option Bytes → ℕ → Call

-- The client, the blocks and texts that its caller has been given, and the world
pub record Held (W : Type 0) : Type 0 where
  pub client : Handle
  pub owned : ℕ
  pub world : W

module _ {W : Type 0} (lib : Libcurl W) where
  abbrev on_world : {A : Type 0} → (W → A × W) → Held W → Held W
  on_world f s = record s { world = (f s.world).1 }

  abbrev on_client : {A : Type 0} → (Handle → W → (A × Handle) × W) → Held W → Held W
  on_client f s = let ((a, c), w) = f s.client s.world in record s { client = c; world = w }

  abbrev replacing : (Handle → W → Handle × W) → Held W → Held W
  replacing f s = let (c, w) = f s.client s.world in record s { client = c; world = w }

  abbrev granting : (W → ℕ × W) → Held W → Held W
  granting f s = let (n, w) = f s.world in record s { owned = s.owned + n; world = w }

  -- The caller gives back only what it has been given.
  abbrev give_back : ℕ → Held W → Held W
  give_back zero s = s
  give_back (suc n) s = record s { owned = n; world = http_client_memory_free lib s.world }

  -- The block that is handed over; `none` is a store through NULL.
  abbrev handed : Option (ℕ × Handle) → Held W → Option (Held W)
  handed none s = none
  handed (some (n, c)) s = some (record s { client = c; owned = s.owned + n })

  unfoldable pub call : Call → Held W → Option (Held W)
  unfolding http_client_reset http_client_set_method http_client_set_url_escape http_client_set_path
      http_client_set_query get_part http_client_set_header http_client_set_timeout
      http_client_set_version http_client_set_request_body_instant http_client_set_request_body
      http_client_set_response_body http_client_enable_response_body http_client_set_response_header
      http_response_body_write_callback http_client_move_response_body http_client_request
      http_client_get_response_code http_client_escape http_client_unescape http_client_memory_free
      http_client_set_mime_instant
  call reset s = some (replacing (http_client_reset lib) s)
  call set_request_body s = some (on_world (http_client_set_request_body lib) s)
  call set_response_body s = some (on_world (http_client_set_response_body lib) s)
  call enable_response_body s = some (on_world (http_client_enable_response_body lib) s)
  call set_response_header s = some (on_world (http_client_set_response_header lib) s)
  call (move_response_body has_len) s =
      handed (http_client_move_response_body lib has_len s.client) s
  call request s = some (on_world (http_client_request lib s.client) s)
  call get_response_code s = some (on_world (http_client_get_response_code lib) s)
  call memory_free s = some (give_back s.owned s)
  call (set_method method) s = some (on_world (http_client_set_method lib method) s)
  call (set_url text) s = some (on_world (http_client_set_url_escape lib text) s)
  call (set_path text) s = some (on_world (http_client_set_path lib text) s)
  call (set_query name value) s = some (on_world (http_client_set_query lib name value) s)
  call (get_text part) s =
      some (granting (λ w. ((get_part lib part w).0.1, (get_part lib part w).1)) s)
  call (set_header name value) s = some (on_client (http_client_set_header lib name value) s)
  call (set_timeout seconds) s = some (on_world (http_client_set_timeout lib seconds) s)
  call (set_version version) s = some (on_world (http_client_set_version lib version) s)
  call (chunk len) s = some (on_client (http_response_body_write_callback lib len) s)
  call (set_request_body_instant bytes len) s =
      some (on_world (http_client_set_request_body_instant lib bytes len) s)
  call (escape text) s = some (granting (http_client_escape lib text) s)
  call (unescape text) s = some (granting (http_client_unescape lib text) s)
  call (set_mime name buffer bufsz) s =
      some (replacing (http_client_set_mime_instant lib name buffer bufsz) s)

  abbrev and_then : (Held W → Option (Held W)) → Option (Held W) → Option (Held W)
  and_then f none = none
  and_then f (some s) = f s

  unfoldable pub calls : List Call → Held W → Option (Held W)
  unfolding call
  calls [] s = some s
  calls (c ∷ cs) s = and_then (calls cs) (call c s)

  -- The number of what the caller has still to give back, and the world at the end
  abbrev pub close : Option (Held W) → Option (ℕ × W)
  close none = none
  close (some s) = some (s.owned, http_client_close lib (some s.client) s.world)

  abbrev pub use_client : List Call → Option Handle × W → Option (ℕ × W)
  use_client cs (none, w) = some (0, w)
  use_client cs (some c, w) = close (calls cs (record { client = c; owned = 0; world = w }))

  -- `none` is a store through NULL.
  unfoldable pub session : List Call → Bool → W → Option (ℕ × W)
  unfolding http_client_new http_client_close calls
  session cs initialized w =
      let ((initialized', c), w') = http_client_new lib initialized w in use_client cs (c, w')

-- Whether a body is moved with no pointer for its length
abbrev is_null_move : Call → Bool
is_null_move (move_response_body has_len) = not has_len
is_null_move other = false

abbrev pub moves_null : List Call → Bool
moves_null [] = false
moves_null (c ∷ cs) = is_null_move c || moves_null cs

module _ {W : Type 0} (lib : Libcurl W) (held : W → ℕ) (counts : Counts lib held) where
  -- Behind what others hold: the client's memory, what it holds, and what its caller has been given.
  abbrev Owns : ℕ → Held W → Type 0
  Owns base s = held s.world ≡ total (base + s.owned + 1) s.client

  -- A call that gives the caller nothing and leaves the client
  leaves-Owns :
      (base : ℕ) (s : Held W) (w : W)
      → held w ≡ held s.world
      → Owns base s
      → Owns base (record s { world = w })
  leaves-Owns base s w same k = same ∙ k

  gives-Owns :
      (base n : ℕ) (s : Held W) (w : W)
      → held w ≡ held s.world + n
      → Owns base s
      → Owns base (record s { owned = s.owned + n; world = w })
  gives-Owns base n s w more k = omega (arith, more, k)

  give_back-Owns :
      (base : ℕ) (s : Held W) → Owns base s → (n : ℕ) → s.owned ≡ n → Owns base (give_back lib n s)
  unfolding http_client_memory_free
  give_back-Owns base s k zero e = k
  give_back-Owns base s k (suc n) e =
      let c = s.client in counts.curl_free s.world (total (base + n + 1) c) (omega (arith, k, e))

  set_method-Leaves :
      (method : HttpMethod) (w : W) → held (http_client_set_method lib method w).1 ≡ held w
  unfolding http_client_set_method
  set_method-Leaves get w = counts.setopt _ w
  set_method-Leaves post w = counts.setopt _ w
  set_method-Leaves put w = counts.setopt _ w
  set_method-Leaves delete w = counts.setopt _ w
  set_method-Leaves patch w = counts.setopt _ w

  given-bit : (n : ℕ) (b : Bool) → n + bit b ≡ n + (if b then 1 else 0)
  given-bit n true = refl
  given-bit n false = refl

  options-Owns :
      (base : ℕ) (options : List CurlOption) (s : Held W)
      → Owns base s
      → Owns base (record s { world = setopts lib options s.world })
  options-Owns base options s k =
      leaves-Owns base s _ (setopts-Leaves lib held counts options s.world) k

  -- A call ends so, or it has stored through NULL.
  abbrev CallEnds : ℕ → Call → Option (Held W) → Type 0
  CallEnds base c none = is_null_move c ≡ true
  CallEnds base c (some s) = Owns base s

  handed-CallEnds :
      (base : ℕ) (has_len : Bool) (s : Held W) (o : Option (ℕ × Handle))
      → Handed lib held counts has_len (base + s.owned + 1) s.world o
      → CallEnds base (move_response_body has_len) (handed lib o s)
  handed-CallEnds base has_len s none null = rw null refl
  handed-CallEnds base has_len s (some (n, c)) h = omega (arith, h)

  call-Owns : (base : ℕ) (c : Call) (s : Held W) → Owns base s → CallEnds base c (call lib c s)
  unfolding call http_client_set_url_escape http_client_set_path http_client_set_query get_part
      http_client_set_timeout http_client_set_version http_client_set_request_body_instant
      http_client_set_request_body http_client_set_response_body http_client_enable_response_body
      http_client_set_response_header http_client_get_response_code http_client_escape
      http_client_unescape
  call-Owns base reset s k = reset-total lib held counts _ s.client s.world k
  call-Owns base set_request_body s k =
      options-Owns base (upload ∷ readfunction ∷ readdata ∷ []) s k
  call-Owns base set_response_body s k = options-Owns base (writefunction ∷ writedata ∷ []) s k
  call-Owns base enable_response_body s k = options-Owns base (own_body ∷ writedata ∷ []) s k
  call-Owns base set_response_header s k = options-Owns base (headerfunction ∷ headerdata ∷ []) s k
  call-Owns base (move_response_body has_len) s k =
      handed-CallEnds base has_len s (http_client_move_response_body lib has_len s.client)
        (move-total lib held counts has_len (base + s.owned + 1) s.client s.world k)
  call-Owns base request s k =
      leaves-Owns base s _ (request-Leaves lib held counts s.client s.world) k
  call-Owns base get_response_code s k = leaves-Owns base s _ (counts.response_code s.world) k
  call-Owns base memory_free s k = give_back-Owns base s k s.owned refl
  call-Owns base (set_method method) s k = leaves-Owns base s _ (set_method-Leaves method s.world) k
  call-Owns base (set_url text) s k = leaves-Owns base s _ (counts.url_set _ _ s.world) k
  call-Owns base (set_path text) s k = leaves-Owns base s _ (counts.url_set _ _ s.world) k
  call-Owns base (set_query name value) s k = leaves-Owns base s _ (counts.url_set _ _ s.world) k
  call-Owns base (get_text part) s k =
      gives-Owns base _ s _ (counts.url_get part s.world ∙ given-bit _ _) k
  call-Owns base (set_header name value) s k =
      set_header-total lib held counts _ name value s.client s.world k
  call-Owns base (set_timeout seconds) s k = leaves-Owns base s _ (counts.setopt _ s.world) k
  call-Owns base (set_version version) s k = leaves-Owns base s _ (counts.setopt _ s.world) k
  call-Owns base (chunk len) s k = write_callback-total lib held counts _ len s.client s.world k
  call-Owns base (set_request_body_instant bytes len) s k =
      options-Owns base (postfields bytes ∷ postfieldsize len ∷ []) s k
  call-Owns base (escape text) s k =
      gives-Owns base _ s _ (counts.escape text s.world ∙ given-bit _ _) k
  call-Owns base (unescape text) s k =
      gives-Owns base _ s _ (counts.unescape text s.world ∙ given-bit _ _) k
  call-Owns base (set_mime name buffer bufsz) s k =
      set_mime-total lib held counts _ name buffer bufsz s.client s.world k

  -- The same of several calls
  abbrev CallsEnd : ℕ → List Call → Option (Held W) → Type 0
  CallsEnd base cs none = moves_null cs ≡ true
  CallsEnd base cs (some s) = Owns base s

  later-CallsEnd :
      (base : ℕ) (c : Call) (cs : List Call) (o : Option (Held W))
      → CallsEnd base cs o
      → CallsEnd base (c ∷ cs) o
  later-CallsEnd base c cs none null = ground (arith, null)
  later-CallsEnd base c cs (some s) k = k

  and_then-CallsEnd :
      (base : ℕ) (c : Call) (cs : List Call) (o : Option (Held W))
      → ((s : Held W) → Owns base s → CallsEnd base cs (calls lib cs s))
      → CallEnds base c o
      → CallsEnd base (c ∷ cs) (and_then lib (calls lib cs) o)
  and_then-CallsEnd base c cs none h null = ground (arith, null)
  and_then-CallsEnd base c cs (some s) h k = later-CallsEnd base c cs (calls lib cs s) (h s k)

  calls-Owns :
      (base : ℕ) (cs : List Call) (s : Held W) → Owns base s → CallsEnd base cs (calls lib cs s)
  unfolding calls
  calls-Owns base [] s k = k
  calls-Owns base (c ∷ cs) s k =
      and_then-CallsEnd base c cs (call lib c s) (calls-Owns base cs) (call-Owns base c s k)

  -- What a session comes to, from a world in which `base` was held
  abbrev pub Ends : ℕ → List Call → Option (ℕ × W) → Type 0
  Ends base cs none = moves_null cs ≡ true
  Ends base cs (some (owned, w)) = held w ≡ base + owned

  close-Ends :
      (base : ℕ) (cs : List Call) (o : Option (Held W))
      → CallsEnd base cs o
      → Ends base cs (close lib o)
  close-Ends base cs none null = null
  close-Ends base cs (some s) k = close-Frees lib held counts (base + s.owned) s.client s.world k

  use_client-Balanced :
      (base : ℕ) (cs : List Call) (x : Option Handle × W)
      → Made lib held counts base x
      → Ends base cs (use_client lib cs x)
  use_client-Balanced base cs (none, w) made = omega (arith, made)
  use_client-Balanced base cs (some c, w) made =
      let s : Held W = record { client = c; owned = 0; world = w } in
      close-Ends base cs (calls lib cs s) (calls-Owns base cs s (omega (arith, made)))

  -- A client is made, used by any calls in any order, of which each may fail, and closed. Then as much is
  -- held as before and what its caller has been given and has not given back; and just as much as
  -- before, if there was no client. Only a call that moves a body with a NULL length can keep a session
  -- from that end, by a store through NULL where there is no body. libcurl and the memory are assumed to
  -- count what they give and what they are given back.
  pub session-Balanced :
      (cs : List Call) (initialized : Bool) (w : W)
      → Ends (held w) cs (session lib cs initialized w)
  unfolding session
  session-Balanced cs initialized w =
      use_client-Balanced (held w) cs _ (new-Made lib held counts initialized w)

-- ===== src/Http/Client.antt =====
-- The HTTP client of src/http/http_client.c. What libcurl does with a request is a parameter: it
-- hands the response's body in chunks to the sink that the client has chosen.
use elastos_net_hive_native.Base.{
  ℕ, ◌+◌, ◌%◌, Bool, Bytes, codes, length, List, [], ◌∷◌, ◌++◌, Option, none, some, ltb, ℤ,
  if◌then◌else◌,
}
use elastos_net_hive_native.Http.Body.{
  Body, empty_body, size_mod, http_response_body_write_callback,
}

pub data HttpMethod : Type 0 where
  get post put delete patch : HttpMethod

-- Where the body of a response goes: nowhere (`eat_output`), into the client's own buffer, or to a
-- callback of src/vendors/ipfs/ipfs.c (with its buffer's size) or src/vendors/onedrive/onedrive.c.
pub data Sink : Type 0 where
  eat : Sink
  own : Body → Sink
  fixed : ℕ → Bytes → Sink
  raw : Bytes → Sink

pub record HttpClient : Type 0 where
  pub url : Bytes
  pub query : List (Bytes × Bytes)
  pub method : HttpMethod
  pub hdr : List Bytes
  pub body : Option (Option Bytes × ℕ)
  pub mime : Option (Bytes × Option Bytes × ℕ)
  pub timeout : Option ℕ
  pub sink : Sink
  pub response_body : Body

unfoldable pub new_client : HttpClient
new_client = record {
  url = [];
  query = [];
  method = get;
  hdr = [];
  body = none;
  mime = none;
  timeout = none;
  sink = eat;
  response_body = empty_body;
}

-- All is set back but the buffer's memory.
unfoldable pub http_client_reset : HttpClient → HttpClient
unfolding new_client
http_client_reset c = record new_client {
  response_body = record c.response_body { used = 0; stored = [] };
}

abbrev pub http_client_set_url : Bytes → HttpClient → HttpClient
http_client_set_url url c = record c { url = url; query = [] }

abbrev pub http_client_set_query : Bytes → Bytes → HttpClient → HttpClient
http_client_set_query name value c = record c { query = c.query ++ (name, value) ∷ [] }

abbrev pub http_client_set_method : HttpMethod → HttpClient → HttpClient
http_client_set_method method c = record c { method = method }

abbrev pub http_client_set_header : Bytes → Bytes → HttpClient → HttpClient
http_client_set_header name value c = record c { hdr = c.hdr ++ (name ++ codes ": " ++ value) ∷ [] }

abbrev pub http_client_set_timeout : ℕ → HttpClient → HttpClient
http_client_set_timeout timeout c = record c { timeout = some timeout }

abbrev pub http_client_set_request_body_instant : Option Bytes → ℕ → HttpClient → HttpClient
http_client_set_request_body_instant bytes len c = record c { body = some (bytes, len) }

abbrev pub http_client_set_mime_instant : Bytes → Option Bytes → ℕ → HttpClient → HttpClient
http_client_set_mime_instant name buffer bufsz c = record c { mime = some (name, buffer, bufsz) }

abbrev pub http_client_enable_response_body : HttpClient → HttpClient
http_client_enable_response_body c = record c { sink = own c.response_body }

abbrev pub http_client_set_response_body : Sink → HttpClient → HttpClient
http_client_set_response_body sink c = record c { sink = sink }

-- One call of the sink's callback: the bytes taken, and the sink after it.
pub take_own : Option (ℕ × Body) → Body → ℕ × Sink
take_own none b = (0, own b)
take_own (some (n, b')) b = (n, own b')

unfoldable pub deliver : (ℕ → Bool) → Bytes → Sink → ℕ × Sink
unfolding take_own
deliver grant chunk eat = (length chunk, eat)
deliver grant chunk (own b) = take_own (http_response_body_write_callback grant chunk b) b
deliver grant chunk (fixed bufsz stored) =
    if ltb bufsz ((length stored + length chunk) % size_mod)
    then (0, fixed bufsz stored)
    else (length chunk, fixed bufsz (stored ++ chunk))
deliver grant chunk (raw stored) = (length chunk, raw (stored ++ chunk))

-- The outside world of the backends, over the state `W` and cJSON's nodes `J`.
pub record Net (W J : Type 0) : Type 0 where
  -- The parts of `http_client_new` and `http_client_close` that libcurl and the memory decide.
  pub http_client_new : W → Bool × W
  pub http_client_close : W → W
  -- curl_easy_perform: the CURLcode, and the sink after all that arrived
  pub perform : HttpClient → W → (ℕ × Sink) × W
  -- curl_easy_getinfo(CURLINFO_RESPONSE_CODE): the CURLcode and the status
  pub response_code : W → ℕ × ℕ
  -- An access through a NULL pointer is undefined in C. In the model the function ends there, with a
  -- result that the world chooses; the state of the library that the function had stays.
  pub null_store : W → ℤ × W
  pub rand : W → ℕ × W
  -- printf's %d and %u of a number that is not negative
  pub decimal : ℕ → Bytes
  pub parse : Bytes → Option J
  pub get_item : J → Bytes → Option J
  pub is_string : J → Bool
  pub is_number : J → Bool
  pub is_object : J → Bool
  -- The node's name in its object is not NULL.
  pub has_name : J → Bool
  pub valuestring : J → Bytes
  -- (ssize_t)item->valuedouble
  pub value_ssize : J → ℤ

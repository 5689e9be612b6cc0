-- ===== src/Error/Table.antt =====
-- The tables of error descriptions of src/hive_error.c, src/http_status.c and
-- src/http/http_client.c, and the search that they share.
use elastos_net_hive_native.Base.{
  ℕ, String, Bytes, codes, List, [], ◌∷◌, Option, none, some, ◌==◌, if◌then◌else◌,
}

pub record ErrorDesc : Type 0 where
  pub errcode : ℕ
  pub errdesc : Bytes

abbrev pub desc : ℕ → String → ErrorDesc
desc c s = record { errcode = c; errdesc = codes s }

-- for (i = 0; i < size; i++) if (errcode == table[i].errcode) break;
unfoldable pub find_desc : List ErrorDesc → ℕ → Option Bytes
find_desc [] errcode = none
find_desc (d ∷ table) errcode =
    if errcode == d.errcode then some d.errdesc else find_desc table errcode

-- src/hive_error.c
abbrev pub error_codes : List ErrorDesc
error_codes =
    desc 0x01 "Invalid argument(s)"
    ∷ desc 0x02 "Out of memory"
    ∷ desc 0x03 "Too small buffer size"
    ∷ desc 0x04 "Bad persistent data"
    ∷ desc 0x05 "Invalid persistent file"
    ∷ desc 0x06 "Invalid credential"
    ∷ desc 0x07 "SDK not ready"
    ∷ desc 0x08 "Entity not exists"
    ∷ desc 0x09 "Entity already exists"
    ∷ desc 0x0A "Invalid user id"
    ∷ desc 0x0B "Being in wrong state"
    ∷ desc 0x0C "Instance is being busy"
    ∷ desc 0x0D "Language binding error"
    ∷ desc 0x0E "Encrypt error"
    ∷ desc 0x0F "Not implemented yet"
    ∷ desc 0x10 "Not supported"
    ∷ desc 0x11 "Exceeding the limit"
    ∷ desc 0x12 "Load encrypted persistent data error"
    ∷ desc 0x13 "Bad bootstrap host"
    ∷ desc 0x14 "Bad bootstrap port"
    ∷ desc 0x15 "Bad carrier node address"
    ∷ desc 0x16 "Bad json format"
    ∷ desc 0x17 "Try again the operation"
    ∷ desc 0xFF "Unknown error"
    ∷ []

-- src/http_status.c
abbrev pub status_codes : List ErrorDesc
status_codes =
    desc 100 "Continue"
    ∷ desc 101 "Switching Protocols"
    ∷ desc 102 "Processing"
    ∷ desc 103 "Early Hints"
    ∷ desc 200 "OK"
    ∷ desc 201 "Created"
    ∷ desc 202 "Accepted"
    ∷ desc 203 "Non-Authoritative Information"
    ∷ desc 204 "No Content"
    ∷ desc 205 "Reset Content"
    ∷ desc 206 "Partial Content"
    ∷ desc 207 "Multi-Status"
    ∷ desc 208 "Already Reported"
    ∷ desc 226 "IM Used"
    ∷ desc 300 "Multiple Choices"
    ∷ desc 301 "Moved Permanently"
    ∷ desc 302 "Found"
    ∷ desc 303 "See Other"
    ∷ desc 304 "Not Modified"
    ∷ desc 305 "Use Proxy"
    ∷ desc 307 "Temporary Redirect"
    ∷ desc 308 "Permanent Redirect"
    ∷ desc 400 "Bad Request"
    ∷ desc 401 "Unauthorized"
    ∷ desc 402 "Payment Required"
    ∷ desc 403 "Forbidden"
    ∷ desc 404 "Not Found"
    ∷ desc 405 "Method Not Allowed"
    ∷ desc 406 "Not Acceptable"
    ∷ desc 407 "Proxy Authentication Required"
    ∷ desc 408 "Request Timeout"
    ∷ desc 409 "Conflict"
    ∷ desc 410 "Gone"
    ∷ desc 411 "Length Required"
    ∷ desc 412 "Precondition Failed"
    ∷ desc 413 "Payload Too Large"
    ∷ desc 414 "URI Too Long"
    ∷ desc 415 "Unsupported Media Type"
    ∷ desc 416 "Range Not Satisfiable"
    ∷ desc 417 "Expectation Failed"
    ∷ desc 418 "I'm a teapot"
    ∷ desc 422 "Unprocessable Entity"
    ∷ desc 423 "Locked"
    ∷ desc 424 "Failed Dependency"
    ∷ desc 426 "Upgrade Required"
    ∷ desc 428 "Precondition Required"
    ∷ desc 429 "Too Many Requests"
    ∷ desc 431 "Request Header Fields Too Large"
    ∷ desc 451 "Unavailable For Legal Reasons"
    ∷ desc 500 "Internal Server Error"
    ∷ desc 501 "Not Implemented"
    ∷ desc 502 "Bad Gateway"
    ∷ desc 503 "Service Unavailable"
    ∷ desc 504 "Gateway Time-out"
    ∷ desc 505 "HTTP Version Not Supported"
    ∷ desc 506 "Variant Also Negotiates"
    ∷ desc 507 "Insufficient Storage"
    ∷ desc 508 "Loop Detected"
    ∷ desc 510 "Not Extended"
    ∷ desc 511 "Network Authentication Required"
    ∷ []

-- src/http/http_client.c; the numbers are libcurl's documented CURLUcode values.
abbrev pub curlu_codes : List ErrorDesc
curlu_codes =
    desc 1 "CURLU pointer argument passed as NULL."
    ∷ desc 2 "part argument passed as NULL."
    ∷ desc 3 "a malformed input passed."
    ∷ desc 4 "invalid port number"
    ∷ desc 5 "unsupported scheme"
    ∷ desc 6 "URL decode error"
    ∷ desc 7 "a memory function failed"
    ∷ desc 8 "credentials was passed when prohibited"
    ∷ desc 9 "an unknown part ID"
    ∷ desc 10 "no scheme part in the URL"
    ∷ desc 11 "no user part in the URL"
    ∷ desc 12 "no password part in the URL"
    ∷ desc 13 "no options part in the URL"
    ∷ desc 14 "no host part in the URL"
    ∷ desc 15 "no port part in the URL"
    ∷ desc 16 "no query part in the URL"
    ∷ desc 17 "no fragment part in the URL"
    ∷ []

-- ===== src/Tests/Bodies.antt =====
-- The buffer of src/http/http_client.c at concrete chunks.
use mathlib.Core.List.{flatten}
use elastos_net_hive_native.Base.{
  ℕ, ◌+◌, ◌≤◌, ◌<◌, ◌≡◌, ◌≢◌, refl, Bool, true, false, codes, [], ◌∷◌, some, arith,
}
use elastos_net_hive_native.Http.Body.{
  Body, size_mod, empty_body, new_size, resize, settle, grow, http_response_body_write_callback,
  moved, null_store, http_client_move_response_body,
}
use elastos_net_hive_native.Http.Body.Growth.{new_size_total}
use elastos_net_hive_native.Http.Body.Content.{
  IsValid, Result, Accepts, finished, next, write_callback-Took, move-Accepts,
}

new_size_total_example :
    (r : ℕ) × (new_size 1024 5000 ≡ some r) × (1024 + 5000 ≤ r) × (r < size_mod)
new_size_total_example = new_size_total 1024 5000 (omega arith)

abbrev grants : ℕ → Bool
grants n = true

abbrev two_bytes : Body
two_bytes = record { used = 2; sz = 4; stored = codes "ab" }

abbrev two_bytes-IsValid : IsValid two_bytes
two_bytes-IsValid = record { within = omega arith; bounded = omega arith; counted = refl }

write_callback-Took_example :
    Result
      (codes "cde")
      two_bytes
      (http_response_body_write_callback grants (codes "cde") two_bytes)
write_callback-Took_example =
    write_callback-Took grants (codes "cde") two_bytes two_bytes-IsValid (omega arith)

abbrev filled : Body
filled = record { used = 3; sz = 512; stored = codes "abc" }

abbrev part : Body
part = record { used = 2; sz = 512; stored = codes "ab" }

took_first : http_response_body_write_callback grants (codes "ab") empty_body ≡ some (2, part)
unfolding http_response_body_write_callback resize new_size settle grow
took_first = refl

took_second : http_response_body_write_callback grants (codes "c") part ≡ some (1, filled)
unfolding http_response_body_write_callback
took_second = refl

abbrev filled-Accepts : Accepts grants (codes "ab" ∷ codes "c" ∷ []) empty_body filled
filled-Accepts = next (omega arith) took_first (next (omega arith) took_second finished)

move-Accepts_example :
    (flatten (codes "ab" ∷ codes "c" ∷ []) ≢ []
      → http_client_move_response_body filled false
        ≡ moved (flatten (codes "ab" ∷ codes "c" ∷ [])) empty_body)
    × (flatten (codes "ab" ∷ codes "c" ∷ []) ≡ []
        → http_client_move_response_body filled false ≡ null_store)
move-Accepts_example = move-Accepts grants (codes "ab" ∷ codes "c" ∷ []) filled false filled-Accepts

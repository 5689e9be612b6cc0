-- ===== src/Oauth/Storage.antt =====
-- What src/oauth/oauth_token.c stores of a token is what a later run restores.
use elastos_net_hive_native.Base.{
  ℕ, ◌+◌, ◌^◌, ◌<◌, ◌≡◌, refl, ap, ◌∙◌, true, false, leb, ◌&&◌, Bytes, codes, str_eq, [], ◌∷◌,
  Option, none, some, ℤ, pos, if◌then◌else◌, arith,
}
use elastos_net_hive_native.Http.Client.{Net}
use elastos_net_hive_native.Http.Step.{function}
use elastos_net_hive_native.Oauth.Token.{
  OauthToken, Session, Auth, writeback_tokens, add_tokens, restore_members, restore_access_token,
  string_item, number_item, oauth_token_new, block_size,
}

-- A name without regard to the case of its letters
abbrev pub lower : Bytes → Bytes
lower [] = []
lower (c ∷ s) = (if leb 65 c && leb c 90 then c + 32 else c) ∷ lower s

-- The documented behaviour of cJSON's objects: a new one is empty, a member that is added is found by
-- its name, and leaves the members of other names as they were. A number below 2^53 is kept exactly.
pub record Objects {W J : Type 0} (net : Net W J) (auth : Auth W J) : Type 0 where
  pub get-create :
      (name : Bytes) (w : W) (json : J)
      → (auth.create_object w).0 ≡ some json
      → auth.get_item_any_case json name ≡ none
  pub get-add_string :
      (json : J) (name text : Bytes) (w : W)
      → auth.get_item_any_case json name ≡ none
      → (item : J) × (auth.get_item_any_case (auth.add_string json name (some text) w).0 name
          ≡ some item)
        × (net.is_string item ≡ true)
        × (net.valuestring item ≡ text)
  pub get-add_number :
      (json : J) (name : Bytes) (n : ℕ) (w : W)
      → auth.get_item_any_case json name ≡ none
      → n < 2 ^ 53
      → (item : J) × (auth.get_item_any_case (auth.add_number json name (pos n) w).0 name
          ≡ some item)
        × (net.is_number item ≡ true)
        × (net.value_ssize item ≡ pos n)
  pub get-add_string_other :
      (json : J) (name other : Bytes) (text : Option Bytes) (w : W)
      → str_eq (lower name) (lower other) ≡ false
      → auth.get_item_any_case (auth.add_string json name text w).0 other
        ≡ auth.get_item_any_case json other
  pub get-add_number_other :
      (json : J) (name other : Bytes) (n : ℤ) (w : W)
      → str_eq (lower name) (lower other) ≡ false
      → auth.get_item_any_case (auth.add_number json name n w).0 other
        ≡ auth.get_item_any_case json other

str_eq_refl : (s : Bytes) → str_eq s s ≡ true
str_eq_refl [] = refl
str_eq_refl (c ∷ s) = ground (arith, str_eq_refl s)

module _ {W J : Type 0} {net : Net W J} {auth : Auth W J} (objects : Objects net auth) where
  abbrev Lacks : J → Bytes → Type 0
  Lacks json name = auth.get_item_any_case json name ≡ none

  abbrev Has : J → Bytes → Bytes → Type 0
  Has json name text =
      (item : J) × (auth.get_item_any_case json name ≡ some item)
      × (net.is_string item ≡ true)
      × (net.valuestring item ≡ text)

  abbrev HasNumber : J → Bytes → ℕ → Type 0
  HasNumber json name n =
      (item : J) × (auth.get_item_any_case json name ≡ some item)
      × (net.is_number item ≡ true)
      × (net.value_ssize item ≡ pos n)

  -- The members that a stored token has.
  abbrev pub Stored : J → Bytes → Bytes → Bytes → Bytes → ℕ → Type 0
  Stored json id a b c n =
      Has json (codes "client_id") id
      × Has json (codes "token_type") a
      × Has json (codes "access_token") b
      × Has json (codes "refresh_token") c
      × HasNumber json (codes "expires_at") n

  abbrev pub restored : Bytes → Bytes → Bytes → ℕ → OauthToken → OauthToken
  restored a b c n t = record t {
    token_type = some a;
    access_token = some b;
    refresh_token = some c;
    expires_at = record t.expires_at { tv_sec = pos n };
  }

  string_item-Has :
      (json : J) (name text : Bytes)
      → Has json name text
      → string_item net auth (auth.get_item_any_case json name) ≡ some text
  string_item-Has json name text (item, there, kind, is_text) = rw (there, kind, is_text) refl

  number_item-Has :
      (json : J) (name : Bytes) (n : ℕ)
      → HasNumber json name n
      → number_item net auth (auth.get_item_any_case json name) ≡ some (pos n)
  number_item-Has json name n (item, there, kind, is_value) = rw (there, kind, is_value) refl

  -- The result, and the world behind the block of memory
  abbrev pub Restores : Bytes → Bytes → Bytes → ℕ → Session W → ℤ × Session W → Type 0
  Restores a b c n s r = (r.0 ≡ pos 0) × (r.1.token ≡ restored a b c n s.token)

  restore_members-Restores :
      (a b c : Bytes) (n : ℕ) (s : Session W)
      → (auth.calloc (block_size net auth a b c) s.outside).0 ≡ true
      → Restores a b c n s (
          function
            (restore_members net auth
              (some s.token.client_id)
              (some a)
              (some b)
              (some c)
              (some (pos n)))
            s)
  unfolding restore_members
  restore_members-Restores a b c n s made = rw (str_eq_refl s.token.client_id, made) (refl, refl)

  pub restore-Restores :
      (json : J) (a b c : Bytes) (n : ℕ) (s : Session W)
      → Stored json s.token.client_id a b c n
      → (auth.calloc (block_size net auth a b c) s.outside).0 ≡ true
      → Restores a b c n s (restore_access_token net auth (some json) s)
  unfolding restore_access_token
  restore-Restores json a b c n s (hi, ha, hb, hc, hn) made =
      let ei = string_item-Has json (codes "client_id") s.token.client_id hi in
      let ea = string_item-Has json (codes "token_type") a ha in
      let eb = string_item-Has json (codes "access_token") b hb in
      let ec = string_item-Has json (codes "refresh_token") c hc in
      let en = number_item-Has json (codes "expires_at") n hn in
      rw (ei, ea, eb, ec, en) (restore_members-Restores a b c n s made)

  Has-add_string :
      (json : J) (name other text : Bytes) (added : Option Bytes) (w : W)
      → str_eq (lower name) (lower other) ≡ false
      → Has json other text
      → Has (auth.add_string json name added w).0 other text
  Has-add_string json name other text added w differ (i, i1, i2, i3) =
      (i, objects.get-add_string_other json name other added w differ ∙ i1, i2, i3)

  Lacks-add_string :
      (json : J) (name other : Bytes) (added : Option Bytes) (w : W)
      → str_eq (lower name) (lower other) ≡ false
      → Lacks json other
      → Lacks (auth.add_string json name added w).0 other
  Lacks-add_string json name other added w differ h =
      objects.get-add_string_other json name other added w differ ∙ h

  Has-add_number :
      (json : J) (name other text : Bytes) (n : ℤ) (w : W)
      → str_eq (lower name) (lower other) ≡ false
      → Has json other text
      → Has (auth.add_number json name n w).0 other text
  Has-add_number json name other text n w differ (i, i1, i2, i3) =
      (i, objects.get-add_number_other json name other n w differ ∙ i1, i2, i3)

  -- No members but the client's name
  abbrev Begun : J → Bytes → Type 0
  Begun json id =
      Has json (codes "client_id") id
      × Lacks json (codes "token_type")
      × Lacks json (codes "access_token")
      × Lacks json (codes "refresh_token")
      × Lacks json (codes "expires_at")

  -- The four members that are added in order
  added-Stored :
      (json : J) (id a b c : Bytes) (n : ℕ) (w0 w1 w2 w3 : W)
      → Begun json id
      → n < 2 ^ 53
      → let j1 = (auth.add_string json (codes "token_type") (some a) w0).0 in
        let j2 = (auth.add_string j1 (codes "access_token") (some b) w1).0 in
        let j3 = (auth.add_string j2 (codes "refresh_token") (some c) w2).0 in
        Stored (auth.add_number j3 (codes "expires_at") (pos n) w3).0 id a b c n
  added-Stored json id a b c n w0 w1 w2 w3 (h0, l1, l2, l3, l4) bound =
      let i = codes "client_id" in
      let t = codes "token_type" in
      let x = codes "access_token" in
      let r = codes "refresh_token" in
      let e = codes "expires_at" in
      let j1 = (auth.add_string json t (some a) w0).0 in
      let j2 = (auth.add_string j1 x (some b) w1).0 in
      let j3 = (auth.add_string j2 r (some c) w2).0 in
      (
        Has-add_number j3 e i id (pos n) w3 refl (
            Has-add_string j2 r i id (some c) w2 refl (
              Has-add_string j1 x i id (some b) w1 refl
                (Has-add_string json t i id (some a) w0 refl h0))),
        Has-add_number j3 e t a (pos n) w3 refl (
            Has-add_string j2 r t a (some c) w2 refl
              (Has-add_string j1 x t a (some b) w1 refl (objects.get-add_string json t a w0 l1))),
        Has-add_number j3 e x b (pos n) w3 refl (
            Has-add_string j2 r x b (some c) w2 refl
              (objects.get-add_string j1 x b w1 (Lacks-add_string json t x (some a) w0 refl l2))),
        Has-add_number j3 e r c (pos n) w3 refl (
            objects.get-add_string j2 r c w2 (
              Lacks-add_string j1 x r (some b) w1 refl
                (Lacks-add_string json t r (some a) w0 refl l3))),
        objects.get-add_number j3 e n w3
            (Lacks-add_string j2 r e (some c) w2 refl (
              Lacks-add_string j1 x e (some b) w1 refl
                (Lacks-add_string json t e (some a) w0 refl l4)))
            bound,
      )

  -- The new object, with the client's name
  begun :
      (json : J) (id : Bytes) (w w' : W)
      → (auth.create_object w).0 ≡ some json
      → Begun (auth.add_string json (codes "client_id") (some id) w').0 id
  begun json id w w' made =
      let empty : (name : Bytes) → Lacks json name = λ name. objects.get-create name w json made in
      let name = codes "client_id" in
      let lacks : (other : Bytes)
          → str_eq (lower name) (lower other) ≡ false
          → Lacks (auth.add_string json name (some id) w').0 other =
        λ other differ. Lacks-add_string json name other (some id) w' differ (empty other) in
      (
        objects.get-add_string json name id w' (empty name),
        lacks (codes "token_type") refl,
        lacks (codes "access_token") refl,
        lacks (codes "refresh_token") refl,
        lacks (codes "expires_at") refl,
      )

  saved-Stored :
      (saved : W → Option J) (s : Session W) (json : J) (a b c : Bytes) (n : ℕ)
      → ((json : J) (w : W) → saved (auth.writeback_cb json w).1 ≡ some json)
      → (auth.create_object s.outside).0 ≡ some json
      → s.token.token_type ≡ some a
      → s.token.access_token ≡ some b
      → s.token.refresh_token ≡ some c
      → s.token.expires_at.tv_sec ≡ pos n
      → n < 2 ^ 53
      → (json' : J) × (saved (writeback_tokens net auth s).outside ≡ some json')
        × Stored json' s.token.client_id a b c n
  unfolding writeback_tokens add_tokens
  saved-Stored saved s json a b c n keeps made ea eb ec en bound =
      let id = s.token.client_id in
      let (j0, w0) =
        auth.add_string json (codes "client_id") (some id) (auth.create_object s.outside).1 in
      let (j1, w1) = auth.add_string j0 (codes "token_type") (some a) w0 in
      let (j2, w2) = auth.add_string j1 (codes "access_token") (some b) w1 in
      let (j3, w3) = auth.add_string j2 (codes "refresh_token") (some c) w2 in
      let (j4, w4) = auth.add_number j3 (codes "expires_at") (pos n) w3 in
      (
        j4,
        rw (writeback_tokens, made, add_tokens, ea, eb, ec, en) (keeps j4 w4),
        added-Stored j0 id a b c n w0 w1 w2 w3
            (begun json id s.outside (auth.create_object s.outside).1 made) bound,
      )

  -- If the owner keeps the object that its callback is given, and cJSON and the memory do not fail: a
  -- token with all three strings and a time below 2^53 seconds that `writeback_tokens` stores is
  -- restored by `oauth_token_new` with the same client's name: the new token has the same three
  -- strings and the same seconds, and is else as its options make it.
  pub oauth_token_new-writeback_tokens :
      (saved : W → Option J) (s : Session W) (json : J) (a b c : Bytes) (n : ℕ) (fresh : OauthToken)
      (later : W)
      → ((json : J) (w : W) → saved (auth.writeback_cb json w).1 ≡ some json)
      → (auth.create_object s.outside).0 ≡ some json
      → s.token.token_type ≡ some a
      → s.token.access_token ≡ some b
      → s.token.refresh_token ≡ some c
      → s.token.expires_at.tv_sec ≡ pos n
      → n < 2 ^ 53
      → fresh.client_id ≡ s.token.client_id
      → (auth.calloc (block_size net auth a b c) later).0 ≡ true
      → (oauth_token_new net auth true fresh (saved (writeback_tokens net auth s).outside) later).0
        ≡ (pos 0, some (restored a b c n fresh))
  unfolding oauth_token_new writeback_tokens add_tokens
  oauth_token_new-writeback_tokens saved s json a b c n fresh later keeps made ea eb ec en bound id
        block =
      let (json', kept, stored) = saved-Stored saved s json a b c n keeps made ea eb ec en bound in
      let start : Session W = record { token = fresh; outside = later } in
      let mine : Stored json' fresh.client_id a b c n = rw id stored in
      rw kept (
        ap (λ (t : OauthToken). (pos 0, some t))
          (restore-Restores json' a b c n start mine block).1)

-- ===== src/Tests/Stores.antt =====
-- A token that is stored in an object of members with names, and restored.
use mathlib.Core.Path.{subst}
use mathlib.Core.Option.{some-injective}
use elastos_net_hive_native.Base.{
  ◌≡◌, refl, Bool, true, false, Bytes, codes, str_eq, List, [], ◌∷◌, ◌++◌, Option, none, some,
  is_some, ℤ, pos, negsuc, if◌then◌else◌, Bool-cases, inl, inr, arith,
}
use elastos_net_hive_native.Http.Body.{Body}
use elastos_net_hive_native.Http.Client.{Net, own}
use elastos_net_hive_native.Oauth.Token.{
  OauthToken, Session, Auth, oauth_token_new, writeback_tokens, fresh_token,
}
use elastos_net_hive_native.Oauth.Expiry.{at_time}
use elastos_net_hive_native.Oauth.Storage.{Objects, lower, oauth_token_new-writeback_tokens}

-- The members of an object; an item is an object of one member.
pub record Member : Type 0 where
  pub name : Bytes
  pub text : Option Bytes
  pub number : ℤ

abbrev pub Members : Type 0
Members = List Member

abbrev pub lookup : Members → Bytes → Option Members
lookup [] name = none
lookup (m ∷ ms) name = if str_eq (lower m.name) (lower name) then some (m ∷ []) else lookup ms name

abbrev first_text : Members → Option Bytes
first_text [] = none
first_text (m ∷ ms) = m.text

abbrev first_number : Members → ℤ
first_number [] = negsuc 0
first_number (m ∷ ms) = m.number

abbrev text_of : Option Bytes → Bytes
text_of none = []
text_of (some text) = text

abbrev number_of : Members → Bool
number_of json = true

abbrev pub string_member : Bytes → Option Bytes → Member
string_member name text = record { name = name; text = text; number = pos 0 }

abbrev pub number_member : Bytes → ℤ → Member
number_member name n = record { name = name; text = none; number = n }

abbrev pub World : Type 0
World = Option Members

abbrev two_bytes : Body
two_bytes = record { used = 2; sz = 512; stored = codes "{}" }

abbrev pub objects_net : Net World Members
objects_net = record {
  http_client_new = λ w. (true, w);
  http_client_close = λ w. w;
  perform = λ c w. ((0, own two_bytes), w);
  response_code = λ w. (0, 200);
  null_store = λ w. (negsuc 0, w);
  rand = λ w. (0, w);
  decimal = λ n. codes "0";
  parse = λ text. none;
  get_item = lookup;
  is_string = λ json. is_some (first_text json);
  is_number = number_of;
  is_object = λ json. true;
  has_name = λ json. true;
  valuestring = λ json. text_of (first_text json);
  value_ssize = first_number;
}

-- The owner keeps the object in the world.
abbrev pub objects_auth : Auth World Members
objects_auth = record {
  escape = λ text w. (some text, w);
  curl_url_get = λ part client w. ((0, []), w);
  calloc = λ size w. (true, w);
  errno = λ w. 0;
  gettimeofday = λ w. (at_time 1000 0, w);
  create_object = λ w. (some [], w);
  add_string = λ json name text w. (json ++ string_member name text ∷ [], w);
  add_number = λ json name n w. (json ++ number_member name n ∷ [], w);
  get_item_any_case = lookup;
  writeback_cb = λ json w. (pos 0, some json);
  sb_new_server = λ host port w. (true, w);
  pthread_create = λ url w. (true, w);
  polls = λ w. ([], w);
  waiting = λ w. (none, w);
  sb_close_server = λ w. w;
}

same_name : (name : Bytes) → str_eq (lower name) (lower name) ≡ true
same_name name = same (lower name)
  where
    same : (s : Bytes) → str_eq s s ≡ true
    same [] = refl
    same (c ∷ s) = ground (arith, same s)

lookup-new :
    (json : Members) (m : Member)
    → lookup json m.name ≡ none
    → lookup (json ++ m ∷ []) m.name ≡ some (m ∷ [])
lookup-new [] m missing = rw (same_name m.name) refl
lookup-new (n ∷ ns) m missing = elim (Bool-cases (str_eq (lower n.name) (lower m.name))) [
  | inl found ↦ absurd (cc (rw found at missing))
  | inr other ↦ rw other (lookup-new ns m (rw other at missing))
]

lookup-other :
    (json : Members) (m : Member) (name : Bytes)
    → str_eq (lower m.name) (lower name) ≡ false
    → lookup (json ++ m ∷ []) name ≡ lookup json name
lookup-other [] m name differ = rw differ refl
lookup-other (n ∷ ns) m name differ = rw (lookup-other ns m name differ) refl

pub objects : Objects objects_net objects_auth
objects = record {
  get-create = λ name w json made.
      subst (λ (j : Members). lookup j name ≡ none) (some-injective [] json made) refl;
  get-add_string = λ json name text w missing. (
    string_member name (some text) ∷ [],
    lookup-new json (string_member name (some text)) missing,
    refl,
    refl,
  );
  get-add_number = λ json name n w missing bound. (
    number_member name (pos n) ∷ [],
    lookup-new json (number_member name (pos n)) missing,
    refl,
    refl,
  );
  get-add_string_other =
      λ json name other text w differ. lookup-other json (string_member name text) other differ;
  get-add_number_other =
      λ json name other n w differ. lookup-other json (number_member name n) other differ;
}

abbrev fresh : OauthToken
fresh =
    fresh_token objects_net objects_auth (codes "a") (codes "t") (codes "c") (codes "s") (codes "r")

abbrev signed : OauthToken
signed = record fresh {
  token_type = some (codes "x");
  access_token = some (codes "y");
  refresh_token = some (codes "z");
  expires_at = at_time 4600 0;
}

abbrev session : Session World
session = record { token = signed; outside = none }

oauth_token_new-writeback_tokens_example :
    (oauth_token_new objects_net objects_auth true fresh
      (writeback_tokens objects_net objects_auth session).outside
      none).0
    ≡ (pos 0, some signed)
oauth_token_new-writeback_tokens_example =
    oauth_token_new-writeback_tokens objects (λ w. w) session [] (codes "x") (codes "y") (codes "z")
      4600 fresh none (λ json w. refl) refl refl refl refl refl (omega arith) refl refl

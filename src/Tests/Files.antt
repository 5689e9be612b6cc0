-- ===== src/Tests/Files.antt =====
-- The file transfers of src/hive_file.c over a small machine: one file descriptor, one block of
-- memory, a connection to OneDrive and one to IPFS.
use mathlib.Core.Path.{subst}
use mathlib.Core.Option.{some-injective}
use elastos_net_hive_native.Base.{
  ℕ, Bool, true, false, codes, Option, none, some, [], ℤ, pos, negsuc, ◌≡◌, ◌≢◌, refl, arith,
}
use elastos_net_hive_native.Api.Connect.{Action, HiveConnect}
use elastos_net_hive_native.Api.Os.{Os, Held, Ledger, descriptor, block, acquire, release}
use elastos_net_hive_native.Api.Transfer.{
  hive_put_file, hive_ipfs_put_file, hive_get_file, hive_ipfs_get_file,
}
use elastos_net_hive_native.Api.Transfer.Held.{Balanced}
use elastos_net_hive_native.Api.Transfer.Balance.{beside, put_file-Balanced, get_file-Balanced}
use elastos_net_hive_native.Oauth.Token.{Session}
use elastos_net_hive_native.Ipfs.Connect.{
  Call, put_file_from_buffer, get_file_length, get_file_to_buffer,
}
use elastos_net_hive_native.Onedrive.Connect as Drive
use elastos_net_hive_native.Tests.Nodes.{network}
use elastos_net_hive_native.Tests.Cloud.{Cloud, cloud_net, cloud_auth, cloud_drive}

-- Descriptor 3, if it is not in use
abbrev opened : Bool → Held → ℤ × Held
opened true h = (negsuc 0, h)
opened false h = (pos 3, acquire (descriptor (pos 3)) h)

-- Block 1, if it is not in use
abbrev allocated : Bool → Held → Option ℕ × Held
allocated true h = (none, h)
allocated false h = (some 1, acquire (block 1) h)

-- The states of a connection to OneDrive and of one to IPFS
record Backends : Type 0 where
  session : Session Cloud
  request : Call (Unit {0})

abbrev Machine : Type 0
Machine = Held × Backends

abbrev with_held : {A : Type 0} → (Held → A × Held) → Machine → A × Machine
with_held f (h, rest) = let r = f h in (r.0, (r.1, rest))

abbrev machine : Os Machine
machine = record {
  open_read = λ path. with_held (λ h. opened (h (descriptor (pos 3))) h);
  create_new = λ path. with_held (λ h. opened (h (descriptor (pos 3))) h);
  seek_end = λ fd w. (pos 2, w);
  seek_start = λ fd w. w;
  calloc = λ size. with_held (λ h. allocated (h (block 1)) h);
  free = λ a (h, rest). (release (block a) h, rest);
  read = λ fd size w. ((pos 2, codes "ab"), w);
  write = λ fd bytes size w. (pos size, w);
  close = λ fd (h, rest). (release (descriptor fd) h, rest);
  unlink = λ path w. w;
  errno = λ w. 5;
  null_call = λ w. ((negsuc 0, []), w);
}

opened_ok :
    (b : Bool) (h : Held) (fd : ℕ)
    → (opened b h).0 ≡ pos fd
    → h (descriptor (pos 3)) ≡ b
    → (h (descriptor (pos fd)) ≡ false) × ((opened b h).1 ≡ acquire (descriptor (pos fd)) h)
opened_ok true h fd e free = absurd (cc e)
opened_ok false h fd e free =
    let same : 3 ≡ fd = ground (arith, e) in
    subst
      (λ (n : ℕ).
        (h (descriptor (pos n)) ≡ false)
        × (acquire (descriptor (pos 3)) h ≡ acquire (descriptor (pos n)) h))
      same (free, refl)

opened_failed : (b : Bool) (h : Held) (n : ℕ) → (opened b h).0 ≡ negsuc n → (opened b h).1 ≡ h
opened_failed true h n e = refl
opened_failed false h n e = absurd (cc e)

allocated_ok :
    (b : Bool) (h : Held) (a : ℕ)
    → (allocated b h).0 ≡ some a
    → h (block 1) ≡ b
    → (h (block a) ≡ false) × ((allocated b h).1 ≡ acquire (block a) h)
allocated_ok true h a e free = absurd (cc e)
allocated_ok false h a e free =
    subst (λ (n : ℕ). (h (block n) ≡ false) × (acquire (block 1) h ≡ acquire (block n) h))
      (some-injective 1 a e) (free, refl)

allocated_failed : (b : Bool) (h : Held) → (allocated b h).0 ≡ none → (allocated b h).1 ≡ h
allocated_failed true h e = refl
allocated_failed false h e = absurd (cc e)

abbrev ledger : Ledger machine
ledger = record {
  held = λ w. w.0;
  open_read_ok = λ path (h, rest) fd e. opened_ok _ h fd e refl;
  open_read_failed = λ path (h, rest) n e. opened_failed (h (descriptor (pos 3))) h n e;
  create_new_ok = λ path (h, rest) fd e. opened_ok _ h fd e refl;
  create_new_failed = λ path (h, rest) n e. opened_failed (h (descriptor (pos 3))) h n e;
  calloc_ok = λ size (h, rest) a e. allocated_ok _ h a e refl;
  calloc_failed = λ size (h, rest) e. allocated_failed (h (block 1)) h e;
  held-close = λ fd w. refl;
  held-free = λ a w. refl;
  held-seek_end = λ fd w. refl;
  held-seek_start = λ fd w. refl;
  held-read = λ fd size w. refl;
  held-write = λ fd bytes size w. refl;
  held-unlink = λ path w. refl;
}

abbrev with_session : {A : Type 0} → (Session Cloud → A × Session Cloud) → Action Backends A
with_session f e =
    let r = f e.world.session in (r.0, record e { world = record e.world { session = r.1 } })

abbrev with_request : {A : Type 0} → (Call (Unit {0}) → A × Call (Unit {0})) → Action Backends A
with_request f e =
    let r = f e.world.request in (r.0, record e { world = record e.world { request = r.1 } })

-- The functions of src/vendors/onedrive/onedrive.c over a server that keeps a file
abbrev drive : HiveConnect Backends
drive = record {
  put_file_from_buffer = some (λ from len encrypt name.
      with_session
        (Drive.put_file_from_buffer cloud_net cloud_auth cloud_drive from len encrypt name));
  get_file_length =
      some (λ name. with_session (Drive.get_file_length cloud_net cloud_auth cloud_drive name));
  get_file_to_buffer = some (λ name decrypt len.
      with_session (Drive.get_file_to_buffer cloud_net cloud_auth cloud_drive name decrypt len));
  list_files = none;
  delete_file = none;
  ipfs_put_file_from_buffer = none;
  ipfs_get_file_length = none;
  ipfs_get_file_to_buffer = none;
  put_value = none;
  set_value = none;
  get_values = none;
  delete_key = none;
  disconnect = none;
  expire_token = none;
}

-- The functions of src/vendors/ipfs/ipfs.c over a network in which every node answers
abbrev ipfs : HiveConnect Backends
ipfs = record {
  put_file_from_buffer = none;
  get_file_length = none;
  get_file_to_buffer = none;
  list_files = none;
  delete_file = none;
  ipfs_put_file_from_buffer = some (λ from len encrypt.
      with_request
        (λ s. let (rc, s') = put_file_from_buffer network from len s in ((rc, some s'.out), s')));
  ipfs_get_file_length = some (λ cid. with_request (get_file_length network cid));
  ipfs_get_file_to_buffer = some (λ cid decrypt len.
      with_request
        (λ s. let (rc, s') = get_file_to_buffer network cid len s in ((rc, s'.out), s')));
  put_value = none;
  set_value = none;
  get_values = none;
  delete_key = none;
  disconnect = none;
  expire_token = none;
}

put_file-Balanced_example :
    Balanced ledger
      (hive_put_file machine (some (beside drive)) (some (codes "a")) true (some (codes "b")))
    × Balanced ledger
        (hive_ipfs_put_file machine (some (beside drive)) (some (codes "a")) true true)
put_file-Balanced_example =
    put_file-Balanced ledger (λ h s s'. refl) drive (some (codes "a")) true true (some (codes "b"))

has_get : ipfs.ipfs_get_file_to_buffer ≢ none
has_get e = cc e

get_file-Balanced_example :
    Balanced ledger
      (hive_get_file machine (some (beside drive)) (some (codes "a")) true (some (codes "b")))
    × Balanced ledger
        (hive_ipfs_get_file machine (some (beside ipfs)) (some (codes "a")) true (some (codes "b")))
get_file-Balanced_example =
    get_file-Balanced ledger (λ h s s'. refl) drive ipfs (some (codes "a")) true (some (codes "b"))
      has_get

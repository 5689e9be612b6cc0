-- ===== src/Tests/Keystores.antt =====
-- A file that keeps a token, on a disk of one file.
use mathlib.Core.Option.{some-injective}
use elastos_net_hive_native.Base.{
  ◌<◌, ◌≤◌, ◌≡◌, ◌⊎◌, [], ◌∷◌, ◌++◌, refl, ap, Bytes, codes, length, Option, none, some, pos, arith,
}
use elastos_net_hive_native.Onedrive.Keystore.{
  Disk, load_keystore_in_json, oauth_writeback, or_enomem, write_file, write_text,
}
use elastos_net_hive_native.Onedrive.Reload.{FileLaws, load-writeback}

-- An object is its text.
abbrev one_file : Disk Bytes Bytes
one_file = record {
  stat = λ path w. (some (length w), w);
  open_read = λ path w. (pos 3, w);
  open_write = λ path w. (pos 3, w);
  read = λ fd size w. ((pos (length w), w), w);
  write = λ fd bytes w. (pos (length bytes), bytes);
  close = λ fd w. w;
  errno = λ w. 0;
  set_errno = λ e w. w;
  parse = λ text w. (some text, w);
  print = λ json w. (some json, w);
  overread = λ w. (none, w);
}

abbrev content : Bytes → Bytes → Option Bytes
content path w = some w

one_file-FileLaws : FileLaws one_file content
one_file-FileLaws = record {
  small = λ w. omega arith;
  stored = λ path bytes w opened whole. refl;
  size = λ path bytes w h. ap (λ (b : Bytes). (some (length b), w)) (some-injective w bytes h);
  opens = λ path bytes w h. refl;
  reads = λ path bytes w h. ap (λ (b : Bytes). (pos (length b), b)) (some-injective w bytes h);
}

written :
    oauth_writeback one_file (codes "f") (codes "{}") (codes "old") ≡ (pos 0, codes "{}" ++ 0 ∷ [])
unfolding oauth_writeback write_text write_file
written = refl

load-writeback_example :
    ((2 < 4096)
      × ((w' : Bytes) × (load_keystore_in_json one_file
              (codes "f")
              (oauth_writeback one_file (codes "f") (codes "{}") (codes "old")).1
            ≡ or_enomem one_file (some (codes "{}"), w'))))
    ⊎ ((4096 ≤ 2)
        × (load_keystore_in_json one_file
              (codes "f")
              (oauth_writeback one_file (codes "f") (codes "{}") (codes "old")).1
            ≡ (none, (oauth_writeback one_file (codes "f") (codes "{}") (codes "old")).1)))
unfolding oauth_writeback write_text write_file
load-writeback_example =
    load-writeback one_file content one_file-FileLaws (codes "f") (codes "{}") (codes "{}")
      (codes "old") refl refl refl

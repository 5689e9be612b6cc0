-- ===== src/Tests/Clients.antt =====
-- A client, and the directories that are made on a file system that keeps a list of them.
use elastos_net_hive_native.Base.{
  ◌≡◌, refl, true, Bytes, codes, List, [], ◌∷◌, some, false, arith, ◌++◌, take, pos,
}
use elastos_net_hive_native.Client.Directories.{is_nil, Files, stat_failed, mkdirs}
use elastos_net_hive_native.Api.Connect.{Env}
use elastos_net_hive_native.Client.Create.{Created, IsThere, hive_client_new-Created}
use elastos_net_hive_native.Client.Object.{hive_client_new}
use elastos_net_hive_native.Client.Above.{make_all, all_above, mkdirs-make_all}

-- Nothing is there at first, and the newest directory comes first.
abbrev disk : Files (List Bytes)
disk = record {
  stat = λ path w. (stat_failed, w);
  mkdir = λ path w. (true, path ∷ w);
  errno = λ w. 0;
  set_errno = λ e w. w;
}

made_in_order :
    mkdirs disk (codes "/home//me/.hive") []
    ≡ (pos 0, codes "/home//me/.hive" ∷ codes "/home//me" ∷ codes "/home" ∷ [])
unfolding mkdirs
made_in_order = refl

mkdirs-make_all_example :
    mkdirs disk (codes "/home//me/.hive") []
    ≡ make_all disk
        (all_above (take 4095 (codes "/home//me/.hive")) ++ codes "/home//me/.hive" ∷ [])
        []
mkdirs-make_all_example = mkdirs-make_all disk (codes "/home//me/.hive") []

abbrev thread : Env (List Bytes)
thread = record { hive_error = pos 0; world = [] }

hive_client_new-Created_example :
    Created disk
      (λ w. (true, w))
      ((is_nil (codes "/home/me") ≡ false) × IsThere disk (λ w. (true, w)) (codes "/home/me") [])
      (pos 0)
      (codes "/home/me")
      (hive_client_new disk (λ w. (true, w)) (some (codes "/home/me")) thread)
hive_client_new-Created_example =
    hive_client_new-Created disk (λ w. (true, w)) (λ w. omega arith) (codes "/home/me") thread

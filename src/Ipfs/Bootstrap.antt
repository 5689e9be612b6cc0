-- ===== src/Ipfs/Bootstrap.antt =====
-- `select_bootstrap` of src/vendors/ipfs/ipfs_rpc.c asks the configured nodes one after another, from a
-- random one on, and takes the first that answers.
use native.Mathlib.Decide.{dec_lt}
use native.Mathlib.Nat.{mod-eq_of_lt, mod_self, mod-lt}
use mathlib.Core.Path.{subst}
use mathlib.Core.Option.{some-injective}
use elastos_net_hive_native.Base.{
  ℕ, zero, suc, ◌+◌, ◌-◌, ◌%◌, ◌≤◌, ◌<◌, ◌≡◌, ◌≢◌, ◌↔◌, ◌⊎◌, inl, inr, refl, sym, ap, ◌∙◌, Bool,
  true, false, Bytes, List, length, Option, none, some, get_elem?, get_elem?-lt, lt_of_get_elem?,
  ◌==◌, arith, ==_iff,
}
use elastos_net_hive_native.Http.Client.{Net}
use elastos_net_hive_native.Ipfs.Rpc.{
  RpcNode, Selected, selected, unreachable, try_node, at_node, after_attempt, search_from,
  select_bootstrap,
}

-- `j` is the index that lies `t` rounds behind the base.
abbrev At : ℕ → ℕ → ℕ → ℕ → Type 0
At n base t j = (j ≡ base + t) ⊎ (j + n ≡ base + t)

next_index :
    (n i : ℕ) → i < n → ((i + 1) % n ≡ i + 1) × (i + 1 < n) ⊎ ((i + 1) % n ≡ 0) × (i + 1 ≡ n)
next_index n i h = elim (dec_lt (i + 1) n) [
  | yes p ↦ inl (mod-eq_of_lt p, p)
  | no p ↦
      let wraps : i + 1 ≡ n = omega arith in inr (ap (λ (t : ℕ). t % n) wraps ∙ mod_self n, wraps)
]

module _ {W J : Type 0} (net : Net W J) (nodes : List RpcNode) (start : W) where
  -- The worlds that attempts at configured nodes lead to
  pub data Later : W → Type 0 where
    at_start : Later start
    tried :
        (w : W) (j : ℕ) (node : RpcNode)
        → get_elem? nodes j ≡ some node
        → Later w
        → Later (try_node net node w).1

  -- An attempt at the node that is made in such a world finds no address.
  abbrev pub Ruled : RpcNode → Type 0
  Ruled node = (v : W) × Later v × ((try_node net node v).0 ≡ none)

  -- An attempt at a configured node finds the address, and the search ends with it.
  abbrev pub Chooses : Selected × W → Type 0
  Chooses r =
      (a : Bytes) × (p j : ℕ) × (node : RpcNode) × (v v' : W) × Later v
      × (get_elem? nodes j ≡ some node)
      × (try_node net node v ≡ (some (a, p), v'))
      × (r ≡ (selected a p, v'))

  module _ (base : ℕ) (in_range : base < length nodes) where
    abbrev n : ℕ
    n = length nodes

    -- A node was chosen by its answer, or no node from round `d` on answers.
    abbrev Decides : ℕ → Selected × W → Type 0
    Decides d r =
        Chooses r
        ⊎ ((r.0 ≡ unreachable)
            × ((t j : ℕ) (node : RpcNode)
                → d ≤ t
                → t < n
                → At n base t j
                → get_elem? nodes j ≡ some node
                → Ruled node))

    -- The index of a round is unique.
    same_answer :
        (d i j : ℕ) (node node' : RpcNode)
        → i < n
        → At n base d i
        → At n base d j
        → get_elem? nodes i ≡ some node
        → get_elem? nodes j ≡ some node'
        → Ruled node
        → Ruled node'
    same_answer d i j node node' lt at_i at_j gi gj e =
        let same : j ≡ i = omega (arith, lt_of_get_elem? nodes j gj) in
        subst Ruled (some-injective node node' (sym gi ∙ ap (get_elem? nodes) (sym same) ∙ gj)) e

    after-Decides :
        (d i : ℕ) (node : RpcNode) (rest : W → Selected × W) (last : Bool) (v : W)
        (a : Option (Bytes × ℕ) × W)
        → i < n
        → At n base d i
        → get_elem? nodes i ≡ some node
        → Later v
        → try_node net node v ≡ a
        → (last ≡ true → suc d ≡ n)
        → (last ≡ false → (w : W) → Later w → Decides (suc d) (rest w))
        → Decides d (after_attempt net rest last a)
    unfolding after_attempt
    after-Decides d i node rest last v (some (x, p), w) lt at_i gi lat e end more =
        inl (x, p, i, node, v, w, lat, gi, e, refl)
    after-Decides d i node rest true v (none, w) lt at_i gi lat e end more = inr (
      refl,
      λ t j node' dt tn at_j gj.
          let only : t ≡ d = omega (arith, end refl) in
          same_answer d i j node node' lt at_i (subst (λ (x : ℕ). At n base x j) only at_j) gi gj
            (v, lat, ap (λ (x : Option (Bytes × ℕ) × W). x.0) e),
    )
    after-Decides d i node rest false v (none, w) lt at_i gi lat e end more =
        let lat' : Later w =
          subst Later (ap (λ (x : Option (Bytes × ℕ) × W). x.1) e) (tried v i node gi lat) in
        elim (more refl w lat') [
          | inl found ↦ inl found
          | inr (r, all) ↦ inr (
            r,
            λ t j node' dt tn at_j gj. elim (dec_lt d t) [
              | yes later ↦ all t j node' later tn at_j gj
              | no now ↦
                  let only : t ≡ d = omega arith in
                  same_answer d i j node node' lt at_i (subst (λ (x : ℕ). At n base x j) only at_j)
                    gi gj (v, lat, ap (λ (x : Option (Bytes × ℕ) × W). x.0) e)
            ],
          )
        ]

    next_At :
        (d i : ℕ)
        → d < n
        → i < n
        → At n base d i
        → ((i + 1) % n < n) × At n base (suc d) ((i + 1) % n)
    next_At d i dn lt at_i = elim (next_index n i lt) [
      | inl (e, p) ↦ (omega arith, omega arith)
      | inr (e, p) ↦ (omega arith, omega arith)
    ]

    next_is_base : (d i : ℕ) → d < n → i < n → At n base d i → ((i + 1) % n ≡ base) ↔ (suc d ≡ n)
    next_is_base d i dn lt at_i = elim (next_index n i lt) [
      | inl (e, p) ↦ (λ h. omega arith, λ h. omega arith)
      | inr (e, p) ↦ (λ h. omega arith, λ h. omega arith)
    ]

    round-Decides :
        (d i : ℕ) (w : W) (rest : ℕ → W → Selected × W)
        → d < n
        → i < n
        → At n base d i
        → Later w
        → ((j : ℕ) (w' : W)
            → suc d ≢ n
            → j < n
            → At n base (suc d) j
            → Later w'
            → Decides (suc d) (rest j w'))
        → Decides d (at_node net (rest ((i + 1) % n)) ((i + 1) % n == base) (get_elem? nodes i) w)
    unfolding at_node
    round-Decides d i w rest dn lt at_i lat ih =
        let (node, gi) = get_elem?-lt nodes i lt in
        let next = (i + 1) % n in
        let ends = next_is_base d i dn lt at_i in
        let (next_lt, at_next) = next_At d i dn lt at_i in
        rw (gi, at_node)
          (after-Decides d i node (rest next) (next == base) w (try_node net node w) lt at_i gi lat
            refl (λ e. ends.0 ((==_iff next base).0 e))
            (λ e w'.
              ih next w' (λ l. cc (sym ((==_iff next base).1 (ends.1 l)) ∙ e)) next_lt at_next))

    search_from-Decides :
        (k d i : ℕ) (w : W)
        → k + d ≡ n
        → d < n
        → i < n
        → At n base d i
        → Later w
        → Decides d (search_from net k nodes base i w)
    unfolding search_from
    search_from-Decides zero d i w sum dn lt at_i lat = absurd (omega arith)
    search_from-Decides (suc k) d i w sum dn lt at_i lat =
        round-Decides d i w (search_from net k nodes base) dn lt at_i lat (λ j w' more j_lt at_j.
          search_from-Decides k (suc d) j w' (omega arith) (omega arith) j_lt at_j)

    -- Every index is that of some round.
    search-Decides :
        Chooses (search_from net n nodes base base start)
        ⊎ (((search_from net n nodes base base start).0 ≡ unreachable)
            × ((j : ℕ) (node : RpcNode) → get_elem? nodes j ≡ some node → Ruled node))
    search-Decides =
        elim (search_from-Decides n 0 base start (omega arith) (omega arith) in_range
          (inl (omega arith)) at_start) [
            | inl found ↦ inl found
            | inr (e, all) ↦ inr (
              e,
              λ j node g.
                  let lt = lt_of_get_elem? nodes j g in
                  elim (dec_lt j base) [
                    | yes before ↦
                        all (j + n - base) j node (omega arith) (omega arith) (inr (omega arith)) g
                    | no after ↦
                        all (j - base) j node (omega arith) (omega arith) (inl (omega arith)) g
                  ],
            )
          ]

module _ {W J : Type 0} (net : Net W J) where
  -- Where at least one node is configured, `select_bootstrap` ends within one attempt at each node.
  -- Either an attempt at a configured node finds an address, and the search ends there with that
  -- address and port; or no address is chosen, and an attempt at each configured node found none.
  -- Each attempt is made in a world that earlier attempts led to.
  pub select_bootstrap-Decides :
      (nodes : List RpcNode) (w : W)
      → 0 < length nodes
      → Chooses net nodes (net.rand w).1 (select_bootstrap net nodes w)
        ⊎ (((select_bootstrap net nodes w).0 ≡ unreachable)
            × ((j : ℕ) (node : RpcNode)
                → get_elem? nodes j ≡ some node
                → Ruled net nodes (net.rand w).1 node))
  unfolding select_bootstrap
  select_bootstrap-Decides nodes w some_node =
      let (r, w') = net.rand w in
      search-Decides net nodes w' (r % length nodes) (mod-lt r some_node)

-- ===== src/Error/Register.antt =====
-- `hive_register_strerror` of src/hive_error.c: which entries of the facility table it changes.
use elastos_net_hive_native.Base.{
  ℕ, zero, suc, ◌-◌, ◌≤◌, ◌<◌, ◌≡◌, Option, none, some, List, [], ◌∷◌, get_elem?, arith, ◌==◌,
  if◌then◌else◌, pos,
}
use elastos_net_hive_native.Error.Strerror.{
  StrerrorFunc, FacilityDesc, set_errstring, hive_register_strerror,
}

-- An entry that has no text function gets the new one; any other stays.
abbrev pub install : StrerrorFunc → Option FacilityDesc → Option FacilityDesc
install g none = none
install g (some f) = some (elim f.errstring [ none ↦ record f { errstring = some g } | some _ ↦ f ])

get_elem?-set_errstring :
    (fs : List FacilityDesc) (i j : ℕ) (g : StrerrorFunc)
    → get_elem? (set_errstring fs i g) j
      ≡ (if j == i then install g (get_elem? fs j) else get_elem? fs j)
unfolding set_errstring
get_elem?-set_errstring [] i j g = ground arith
get_elem?-set_errstring (f ∷ fs) zero zero g = ground arith
get_elem?-set_errstring (f ∷ fs) zero (suc j) g = ground arith
get_elem?-set_errstring (f ∷ fs) (suc i) zero g = ground arith
get_elem?-set_errstring (f ∷ fs) (suc i) (suc j) g =
    ground (arith, get_elem?-set_errstring fs i j g)

-- For a facility from 1 to 7 a registration returns 0, sets no error, installs the function where
-- the facility has none, replaces none that is there, and changes no other entry of the table.
pub hive_register_strerror_entries :
    (fs : List FacilityDesc) (facility j : ℕ) (g : StrerrorFunc)
    → 0 < facility
    → facility ≤ 7
    → let r = hive_register_strerror fs (pos facility) g in
      (r.1 ≡ pos 0)
      × (r.2 ≡ none)
      × (get_elem? r.0 j
          ≡ (if j == facility - 1 then install g (get_elem? fs j) else get_elem? fs j))
unfolding hive_register_strerror
hive_register_strerror_entries fs facility j g low high =
    ground (arith, get_elem?-set_errstring fs (facility - 1) j g)

-- ===== src/Registry/Tests.antt =====
-- The registry at concrete values.
use nre.Base.{◌≡◌, ◌≢◌, refl, none, some, List, [], ◌∷◌, if◌then◌else◌, ◌⊎◌}
use nre.Registry.{String, Service, same, search, strcmp, done, exists_error, reg}
use nre.Registry.Names.{Distinct, made, reg_lem}

abbrev timer : String
timer = 0x74 ∷ []

abbrev console : String
console = 0x63 ∷ []

abbrev two : List Service
two = made (some 1) timer 64 1 1 ∷ made (some 2) console 65 1 1 ∷ []

two-Distinct : Distinct two
unfolding search same strcmp
two-Distinct = (refl, (refl, tt))

reg_lem_example :
    let name : String = 0x61 ∷ [] in
    let out = reg two (some 2) name 66 1 1 in
    ((out ≡ exists_error) × (search two name ≢ none))
    ⊎ ((srvs' : List Service) × (out ≡ done srvs')
        × (search two name ≡ none)
        × Distinct srvs'
        × ((n : String)
            → search srvs' n
              ≡ (if same name n then some (made (some 2) name 66 1 1) else search two n)))
reg_lem_example = reg_lem two (some 2) (0x61 ∷ []) 66 1 1 two-Distinct

-- ===== src/Routes/Replace.antt =====
-- `strings.ReplaceAll`, which internal/routes/routes.go fills subject templates with.
pub mod Laws
use nats_web_gateway.Base.{[], false, length, refl, suc, true, zero, ℕ, ◌++◌, ◌-◌, ◌∷◌, ◌≡◌}
use nats_web_gateway.Base.Text.{Text, bytes, has_prefix}

-- The scan: the number counts the bytes of a replaced occurrence that are still to be passed over.
replace_from : ℕ → Text → Text → Text → Text
replace_from skip old new [] = []
replace_from (suc skip) old new (c ∷ s) = replace_from skip old new s
replace_from zero old new (c ∷ s) = elim (has_prefix (c ∷ s) old) [
  | true ↦ new ++ replace_from (length old - 1) old new s
  | false ↦ c ∷ replace_from 0 old new s
]

-- `strings.ReplaceAll(s, old, new)` for an `old` that is not empty.
unfoldable pub replace_all : Text → Text → Text → Text
unfolding replace_from
replace_all old new s = replace_from 0 old new s

replace_all_test :
    replace_all (bytes "{a}") (bytes "x{a}") (bytes "p.{a}.{ab}.{a}") ≡ bytes "p.x{a}.{ab}.x{a}"
unfolding replace_all bytes has_prefix
replace_all_test = refl

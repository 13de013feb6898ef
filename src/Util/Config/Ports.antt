-- ===== src/Util/Config/Ports.antt =====
-- How both programs read their configuration: a property with no default, and a port, which is
-- `getIntProperty` cut to a `std::uint16_t`.
use re_mo_lon.Common.{ℕ, ◌%◌, ◌^◌, ◌≡◌, refl, ◌⊎◌, inl, inr, []}
use re_mo_lon.Common.Eq.{Text}
use re_mo_lon.Common.Outcome.{ok, throws, invalid_argument, out_of_range, Run}
use re_mo_lon.Util.Config
use re_mo_lon.Util.Config.{Properties, Stoi, number, get_property, get_int_property}

abbrev pub property : Text → Properties → Text
property key cfg = get_property key [] cfg

abbrev pub as_port {ℓ} : {S : Type ℓ} → Stoi → Run S ℕ
as_port (number v) s = ok (v % 2 ^ 16) s
as_port Config.invalid_argument s = throws invalid_argument s
as_port Config.out_of_range s = throws out_of_range s

-- What `std::stoi` throws is not caught.
unfoldable pub port_property {ℓ} : {S : Type ℓ} → Text → Properties → Run S ℕ
port_property key cfg = as_port (get_int_property key 0 cfg)

pub stoi-cases :
    (r : Stoi)
    → ((v : ℕ) × (r ≡ number v)) ⊎ (r ≡ Config.invalid_argument) ⊎ (r ≡ Config.out_of_range)
stoi-cases (number v) = inl (v, refl)
stoi-cases Config.invalid_argument = inr (inl refl)
stoi-cases Config.out_of_range = inr (inr refl)

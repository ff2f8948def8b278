-- ===== src/TenantService/Slug.antt =====
-- What `slugify` makes of any name.
use multi_tenant_subscriptio.Base.{
  Bool, List, [], arith, false, map, not, refl, true, ℕ, ◌&&◌, ◌||◌, ◌∷◌, ◌≡◌,
}
use multi_tenant_subscriptio.TenantService.Slugs.{
  dash_runs, is_blank, is_dash, is_empty, is_slug_char, slugify, strip_end, strip_start, to_lower,
}

abbrev pub allowed : ℕ → Bool
allowed c = is_slug_char c || is_dash c

abbrev pub every_char : (ℕ → Bool) → List ℕ → Bool
every_char p [] = true
every_char p (c ∷ cs) = p c && every_char p cs

-- No dash follows a dash.
abbrev pub single_dashes : Bool → List ℕ → Bool
single_dashes after_dash [] = true
single_dashes after_dash (c ∷ cs) = not (after_dash && is_dash c) && single_dashes (is_dash c) cs

abbrev pub starts_with : (ℕ → Bool) → List ℕ → Bool
starts_with p [] = false
starts_with p (c ∷ cs) = p c

abbrev pub ends_with : (ℕ → Bool) → List ℕ → Bool
ends_with p [] = false
ends_with p (c ∷ cs) = ends_with p cs || (p c && is_empty cs)

dash_runs-allowed : (inside : Bool) (cs : List ℕ) → every_char allowed (dash_runs inside cs) ≡ true
dash_runs-allowed inside [] = refl
dash_runs-allowed inside (c ∷ cs) =
    ground (arith, dash_runs-allowed false cs, dash_runs-allowed true cs)

dash_runs-single : (inside : Bool) (cs : List ℕ) → single_dashes inside (dash_runs inside cs) ≡ true
dash_runs-single inside [] = refl
dash_runs-single inside (c ∷ cs) =
    ground (arith, dash_runs-single false cs, dash_runs-single true cs)

strip_start-every :
    (p q : ℕ → Bool) (cs : List ℕ) → every_char q cs ≡ true → every_char q (strip_start p cs) ≡ true
strip_start-every p q [] h = refl
strip_start-every p q (c ∷ cs) h = ground (arith, strip_start-every p q cs)

strip_end-every :
    (p q : ℕ → Bool) (cs : List ℕ) → every_char q cs ≡ true → every_char q (strip_end p cs) ≡ true
strip_end-every p q [] h = refl
strip_end-every p q (c ∷ cs) h = ground (arith, strip_end-every p q cs)

strip_start-starts : (p : ℕ → Bool) (cs : List ℕ) → starts_with p (strip_start p cs) ≡ false
strip_start-starts p [] = refl
strip_start-starts p (c ∷ cs) = ground (arith, strip_start-starts p cs)

strip_end-starts :
    (p : ℕ → Bool) (cs : List ℕ) → starts_with p cs ≡ false → starts_with p (strip_end p cs) ≡ false
strip_end-starts p [] h = refl
strip_end-starts p (c ∷ cs) h = ground arith

strip_end-ends : (p : ℕ → Bool) (cs : List ℕ) → ends_with p (strip_end p cs) ≡ false
strip_end-ends p [] = refl
strip_end-ends p (c ∷ cs) = ground (arith, strip_end-ends p cs)

single_dashes-weaken : (cs : List ℕ) → single_dashes true cs ≡ true → single_dashes false cs ≡ true
single_dashes-weaken [] h = refl
single_dashes-weaken (c ∷ cs) h = ground arith

strip_start-single :
    (cs : List ℕ)
    → single_dashes false cs ≡ true
    → single_dashes false (strip_start is_dash cs) ≡ true
strip_start-single [] h = refl
strip_start-single (c ∷ cs) h = ground (arith, strip_start-single cs, single_dashes-weaken cs)

strip_end-single :
    (after_dash : Bool) (p : ℕ → Bool) (cs : List ℕ)
    → single_dashes after_dash cs ≡ true
    → single_dashes after_dash (strip_end p cs) ≡ true
strip_end-single after_dash p [] h = refl
strip_end-single after_dash p (c ∷ cs) h = ground (arith, strip_end-single (is_dash c) p cs)

-- A slug has small letters, digits and dashes only, neither starts nor ends with a dash, and has no
-- two dashes in a row, whatever the name.
pub slugify-wellformed :
    (name : List ℕ)
    → (every_char allowed (slugify name) ≡ true)
      × (starts_with is_dash (slugify name) ≡ false)
      × (ends_with is_dash (slugify name) ≡ false)
      × (single_dashes false (slugify name) ≡ true)
unfolding slugify
slugify-wellformed name =
    let trimmed : List ℕ = strip_end is_blank (strip_start is_blank (map to_lower name)) in
    let dashed : List ℕ = dash_runs false trimmed in
    let stripped : List ℕ = strip_start is_dash dashed in
    (
      strip_end-every is_dash allowed stripped
          (strip_start-every is_dash allowed dashed (dash_runs-allowed false trimmed)),
      strip_end-starts is_dash stripped (strip_start-starts is_dash dashed),
      strip_end-ends is_dash stripped,
      strip_end-single false is_dash stripped
          (strip_start-single dashed (dash_runs-single false trimmed)),
    )

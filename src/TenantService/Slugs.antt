-- ===== src/TenantService/Slugs.antt =====
-- `slugify` of onboarding/onboarding.service.ts. A text is the list of its character codes; names are
-- ASCII here, where toLowerCase changes the letters A to Z and trim the six blanks.
use multi_tenant_subscriptio.Base.{
  Bool, List, [], false, if◌then◌else◌, leb, map, true, ℕ, ◌&&◌, ◌+◌, ◌==◌, ◌||◌, ◌∷◌,
}

abbrev pub is_slug_char : ℕ → Bool
is_slug_char c = leb 97 c && leb c 122 || leb 48 c && leb c 57

abbrev pub to_lower : ℕ → ℕ
to_lower c = if leb 65 c && leb c 90 then c + 32 else c

abbrev pub is_blank : ℕ → Bool
is_blank c = c == 32 || leb 9 c && leb c 13

abbrev pub is_empty : List ℕ → Bool
is_empty [] = true
is_empty (x ∷ xs) = false

-- `.replace(/^[...]+/, '')` and `.replace(/[...]+$/, '')`
abbrev pub strip_start : (ℕ → Bool) → List ℕ → List ℕ
strip_start p [] = []
strip_start p (c ∷ cs) = if p c then strip_start p cs else c ∷ cs

abbrev pub strip_end : (ℕ → Bool) → List ℕ → List ℕ
strip_end p [] = []
strip_end p (c ∷ cs) = let rest = strip_end p cs in if p c && is_empty rest then [] else c ∷ rest

abbrev pub is_dash : ℕ → Bool
is_dash c = c == 45

-- `.replace(/[^a-z0-9]+/g, '-')`; `inside` says that the run before is replaced already.
abbrev pub dash_runs : Bool → List ℕ → List ℕ
dash_runs inside [] = []
dash_runs inside (c ∷ cs) =
    let after = dash_runs false cs in
    let within = dash_runs true cs in
    if is_slug_char c then c ∷ after else if inside then within else 45 ∷ within

unfoldable pub slugify : List ℕ → List ℕ
slugify name = strip_end is_dash (
    strip_start is_dash
      (dash_runs false (strip_end is_blank (strip_start is_blank (map to_lower name)))))

-- ===== src/ApiGateway/ThrottleRoutes.antt =====
-- common/throttle-routes.ts, and the two buckets of app.module.ts.
use multi_tenant_subscriptio.Base.{
  Bool, List, Option, [], false, get_or, if◌then◌else◌, not, true, ℕ, ◌&&◌, ◌==◌, ◌||◌, ◌∷◌,
}

abbrev pub same_text : List ℕ → List ℕ → Bool
same_text [] [] = true
same_text [] (y ∷ ys) = false
same_text (x ∷ xs) [] = false
same_text (x ∷ xs) (y ∷ ys) = x == y && same_text xs ys

-- `paths.includes(path)`
abbrev pub includes_text : List (List ℕ) → List ℕ → Bool
includes_text [] path = false
includes_text (p ∷ paths) path = same_text p path || includes_text paths path

abbrev pub slash : ℕ
slash = 47

abbrev pub question_mark : ℕ
question_mark = 63

-- '/api/v1/auth/', '/api/v1/onboarding/signup' and '/api/v1/health'
abbrev pub auth_path : List ℕ → List ℕ
auth_path rest = 47 ∷ 97 ∷ 112 ∷ 105 ∷ 47 ∷ 118 ∷ 49 ∷ 47 ∷ 97 ∷ 117 ∷ 116 ∷ 104 ∷ 47 ∷ rest

abbrev pub login_path : List ℕ
login_path = auth_path (108 ∷ 111 ∷ 103 ∷ 105 ∷ 110 ∷ [])

abbrev pub refresh_path : List ℕ
refresh_path = auth_path (114 ∷ 101 ∷ 102 ∷ 114 ∷ 101 ∷ 115 ∷ 104 ∷ [])

abbrev pub signup_path : List ℕ
signup_path =
    47 ∷ 97 ∷ 112 ∷ 105 ∷ 47 ∷ 118 ∷ 49 ∷ 47 ∷ 111 ∷ 110 ∷ 98 ∷ 111 ∷ 97 ∷ 114 ∷ 100 ∷ 105 ∷ 110
    ∷ 103 ∷ 47 ∷ 115 ∷ 105 ∷ 103 ∷ 110 ∷ 117 ∷ 112 ∷ []

abbrev pub health_path : List ℕ → List ℕ
health_path rest =
    47 ∷ 97 ∷ 112 ∷ 105 ∷ 47 ∷ 118 ∷ 49 ∷ 47 ∷ 104 ∷ 101 ∷ 97 ∷ 108 ∷ 116 ∷ 104 ∷ rest

abbrev pub strict_throttle_paths : List (List ℕ)
strict_throttle_paths = login_path ∷ refresh_path ∷ signup_path ∷ []

-- with '/ready'
abbrev pub unthrottled_paths : List (List ℕ)
unthrottled_paths = health_path [] ∷ health_path (47 ∷ 114 ∷ 101 ∷ 97 ∷ 100 ∷ 121 ∷ []) ∷ []

-- `split('?')[0]`
abbrev pub before_query : List ℕ → List ℕ
before_query [] = []
before_query (c ∷ cs) = if c == question_mark then [] else c ∷ before_query cs

abbrev pub drop_slash : ℕ → List ℕ → List ℕ
drop_slash c [] = if c == slash then [] else c ∷ []
drop_slash c (d ∷ rest) = c ∷ d ∷ rest

-- `replace(/\/+$/, '')`
abbrev pub strip_slashes : List ℕ → List ℕ
strip_slashes [] = []
strip_slashes (c ∷ cs) = drop_slash c (strip_slashes cs)

abbrev pub or_root : List ℕ → List ℕ
or_root [] = slash ∷ []
or_root (c ∷ cs) = c ∷ cs

unfoldable pub normalise_path : Option (List ℕ) → List ℕ
normalise_path url = or_root (strip_slashes (before_query (get_or url [])))

unfoldable pub is_strict_throttle_path : Option (List ℕ) → Bool
unfolding normalise_path
is_strict_throttle_path url = includes_text strict_throttle_paths (normalise_path url)

unfoldable pub is_unthrottled_path : Option (List ℕ) → Bool
unfolding normalise_path
is_unthrottled_path url = includes_text unthrottled_paths (normalise_path url)

-- The `skipIf` of the buckets 'default' and 'strict'.
abbrev pub skips_default : Option (List ℕ) → Bool
unfolding is_strict_throttle_path is_unthrottled_path
skips_default url = is_strict_throttle_path url || is_unthrottled_path url

abbrev pub skips_strict : Option (List ℕ) → Bool
unfolding is_strict_throttle_path
skips_strict url = not (is_strict_throttle_path url)

-- ===== src/Authorization/Decisions.antt =====
-- The decisions of the guard, as a table.
use multi_tenant_subscriptio.Base.{
  Bool, List, Option, [], ap, append-nil, arith, false, if◌then◌else◌, none, not, refl, some, subst,
  true, ℕ, ◌&&◌, ◌++◌, ◌||◌, ◌∙◌, ◌∷◌, ◌≡◌,
}
use multi_tenant_subscriptio.Common.{
  Role, TenantContextPayload, forbidden, includes, org_admin, org_member, platform_admin,
}
use multi_tenant_subscriptio.Authorization.Ability.{
  Can, CaslAction, CaslSubject, Condition, Rule, admin_rules, after_platform, all, audit_event,
  authorize, can_rule, cannot_rule, create, create_for_context, decide, delete, manage,
  member_rules, organization, plan, platform_rules, read, resource, scoped_rules, subscription,
  update, user,
}
use multi_tenant_subscriptio.Database.{returned, thrown}

abbrev pub action_eq : CaslAction → CaslAction → Bool
action_eq create create = true
action_eq read read = true
action_eq update update = true
action_eq delete delete = true
action_eq manage manage = true
action_eq _ _ = false

abbrev pub subject_eq : CaslSubject → CaslSubject → Bool
subject_eq organization organization = true
subject_eq user user = true
subject_eq subscription subscription = true
subject_eq plan plan = true
subject_eq resource resource = true
subject_eq audit_event audit_event = true
subject_eq all all = true
subject_eq _ _ = false

-- A rule about 'manage' is about every action, and one about 'all' about every subject.
abbrev pub covers : CaslAction → CaslSubject → CaslAction → CaslSubject → Bool
covers a' s' a s = (action_eq a' manage || action_eq a' a) && (subject_eq s' all || subject_eq s' s)

-- CASL's documentation: nothing is allowed without a rule, and the last rule that covers the
-- question decides; conditions do not count where no instance is given.
pub record CaslLaws (can : Can) : Type 0 where
  pub can_empty : (a : CaslAction) (s : CaslSubject) → can [] a s ≡ false
  pub can_can :
      (rules : List Rule) (a' : CaslAction) (s' : CaslSubject) (conditions : List Condition)
      → (a : CaslAction) (s : CaslSubject)
      → can (rules ++ can_rule a' s' conditions ∷ []) a s
        ≡ (if covers a' s' a s then true else can rules a s)
  pub can_cannot :
      (rules : List Rule) (a' : CaslAction) (s' : CaslSubject)
      → (a : CaslAction) (s : CaslSubject)
      → can (rules ++ cannot_rule a' s' ∷ []) a s
        ≡ (if covers a' s' a s then false else can rules a s)

abbrev pub verdict : Bool → List Rule → CaslAction → CaslSubject → Bool
verdict v [] a s = v
verdict v (can_rule a' s' _ ∷ rules) a s = verdict (if covers a' s' a s then true else v) rules a s
verdict v (cannot_rule a' s' ∷ rules) a s =
    verdict (if covers a' s' a s then false else v) rules a s

append-snoc : (xs : List Rule) (y : Rule) (ys : List Rule) → xs ++ y ∷ ys ≡ (xs ++ y ∷ []) ++ ys
append-snoc [] y ys = refl
append-snoc (x ∷ xs) y ys = let rest = append-snoc xs y ys in rw rest refl

can-verdict_after :
    (can : Can) (laws : CaslLaws can) (a : CaslAction) (s : CaslSubject) (before rules : List Rule)
    → can (before ++ rules) a s ≡ verdict (can before a s) rules a s
can-verdict_after can laws a s before [] = ap (λ rules. can rules a s) (append-nil before)
can-verdict_after can laws a s before (can_rule a' s' cs ∷ rules) =
    ap (λ rules. can rules a s) (append-snoc before (can_rule a' s' cs) rules)
    ∙ can-verdict_after can laws a s (before ++ can_rule a' s' cs ∷ []) rules
    ∙ ap (λ v. verdict v rules a s) (laws.can_can before a' s' cs a s)
can-verdict_after can laws a s before (cannot_rule a' s' ∷ rules) =
    ap (λ rules. can rules a s) (append-snoc before (cannot_rule a' s') rules)
    ∙ can-verdict_after can laws a s (before ++ cannot_rule a' s' ∷ []) rules
    ∙ ap (λ v. verdict v rules a s) (laws.can_cannot before a' s' a s)

can-verdict :
    (can : Can) (laws : CaslLaws can) (a : CaslAction) (s : CaslSubject) (rules : List Rule)
    → can rules a s ≡ verdict false rules a s
can-verdict can laws a s rules =
    can-verdict_after can laws a s [] rules ∙ ap (λ v. verdict v rules a s) (laws.can_empty a s)

-- The table: which questions a user with one role may have answered with yes.
abbrev pub permits : Role → CaslAction → CaslSubject → Bool
permits platform_admin a organization = action_eq a read
permits platform_admin a subscription = action_eq a read
permits platform_admin a plan = true
permits platform_admin a audit_event = action_eq a read
permits platform_admin a _ = false
permits org_admin a user = true
permits org_admin a resource = true
permits org_admin a organization = action_eq a read
permits org_admin a subscription = action_eq a read || action_eq a update
permits org_admin a audit_event = action_eq a read
permits org_admin a plan = action_eq a read
permits org_admin a all = false
permits org_member a resource = not (action_eq a manage)
permits org_member a user = action_eq a read
permits org_member a organization = action_eq a read
permits org_member a subscription = action_eq a read
permits org_member a _ = false

abbrev rules_of : Role → ℕ → ℕ → List Rule
rules_of platform_admin o u = platform_rules
rules_of org_admin o u = admin_rules o
rules_of org_member o u = member_rules o u

by_action :
    (P : CaslAction → Type 0)
    → P create
    → P read
    → P update
    → P delete
    → P manage
    → (a : CaslAction) → P a
by_action P c r u d m create = c
by_action P c r u d m read = r
by_action P c r u d m update = u
by_action P c r u d m delete = d
by_action P c r u d m manage = m

verdict-permits :
    (o u : ℕ) (r : Role) (s : CaslSubject) (a : CaslAction)
    → verdict false (rules_of r o u) a s ≡ permits r a s
verdict-permits o u platform_admin organization =
    by_action
      (λ a.
        verdict false (rules_of platform_admin o u) a organization
        ≡ permits platform_admin a organization)
      refl refl refl refl refl
verdict-permits o u platform_admin user =
    by_action
      (λ a. verdict false (rules_of platform_admin o u) a user ≡ permits platform_admin a user) refl
      refl refl refl refl
verdict-permits o u platform_admin subscription =
    by_action
      (λ a.
        verdict false (rules_of platform_admin o u) a subscription
        ≡ permits platform_admin a subscription)
      refl refl refl refl refl
verdict-permits o u platform_admin plan =
    by_action
      (λ a. verdict false (rules_of platform_admin o u) a plan ≡ permits platform_admin a plan) refl
      refl refl refl refl
verdict-permits o u platform_admin resource =
    by_action
      (λ a.
        verdict false (rules_of platform_admin o u) a resource ≡ permits platform_admin a resource)
      refl refl refl refl refl
verdict-permits o u platform_admin audit_event =
    by_action
      (λ a.
        verdict false (rules_of platform_admin o u) a audit_event
        ≡ permits platform_admin a audit_event)
      refl refl refl refl refl
verdict-permits o u platform_admin all =
    by_action
      (λ a. verdict false (rules_of platform_admin o u) a all ≡ permits platform_admin a all) refl
      refl refl refl refl
verdict-permits o u org_admin organization =
    by_action
      (λ a.
        verdict false (rules_of org_admin o u) a organization ≡ permits org_admin a organization)
      refl refl refl refl refl
verdict-permits o u org_admin user =
    by_action (λ a. verdict false (rules_of org_admin o u) a user ≡ permits org_admin a user) refl
      refl refl refl refl
verdict-permits o u org_admin subscription =
    by_action
      (λ a.
        verdict false (rules_of org_admin o u) a subscription ≡ permits org_admin a subscription)
      refl refl refl refl refl
verdict-permits o u org_admin plan =
    by_action (λ a. verdict false (rules_of org_admin o u) a plan ≡ permits org_admin a plan) refl
      refl refl refl refl
verdict-permits o u org_admin resource =
    by_action
      (λ a. verdict false (rules_of org_admin o u) a resource ≡ permits org_admin a resource) refl
      refl refl refl refl
verdict-permits o u org_admin audit_event =
    by_action
      (λ a. verdict false (rules_of org_admin o u) a audit_event ≡ permits org_admin a audit_event)
      refl refl refl refl refl
verdict-permits o u org_admin all =
    by_action (λ a. verdict false (rules_of org_admin o u) a all ≡ permits org_admin a all) refl
      refl refl refl refl
verdict-permits o u org_member organization =
    by_action
      (λ a.
        verdict false (rules_of org_member o u) a organization ≡ permits org_member a organization)
      refl refl refl refl refl
verdict-permits o u org_member user =
    by_action (λ a. verdict false (rules_of org_member o u) a user ≡ permits org_member a user) refl
      refl refl refl refl
verdict-permits o u org_member subscription =
    by_action
      (λ a.
        verdict false (rules_of org_member o u) a subscription ≡ permits org_member a subscription)
      refl refl refl refl refl
verdict-permits o u org_member plan =
    by_action (λ a. verdict false (rules_of org_member o u) a plan ≡ permits org_member a plan) refl
      refl refl refl refl
verdict-permits o u org_member resource =
    by_action
      (λ a. verdict false (rules_of org_member o u) a resource ≡ permits org_member a resource) refl
      refl refl refl refl
verdict-permits o u org_member audit_event =
    by_action
      (λ a.
        verdict false (rules_of org_member o u) a audit_event ≡ permits org_member a audit_event)
      refl refl refl refl refl
verdict-permits o u org_member all =
    by_action (λ a. verdict false (rules_of org_member o u) a all ≡ permits org_member a all) refl
      refl refl refl refl

-- The factory's rules for one role, if it does not throw.
built :
    (r : Role) (home id : Option ℕ) (rules : List Rule)
    → after_platform (r ∷ []) (
        if includes (r ∷ []) org_admin || includes (r ∷ []) org_member
        then scoped_rules (r ∷ []) home id
        else returned [])
      ≡ returned rules
    → (o : ℕ) × (u : ℕ) × (rules ≡ rules_of r o u)
built platform_admin home id rules h = (0, 0, ground arith)
built org_admin (some o) (some u) rules h = (o, u, ground arith)
built org_admin (some o) none rules h = ground arith
built org_admin none id rules h = ground arith
built org_member (some o) (some u) rules h = (o, u, ground arith)
built org_member (some o) none rules h = ground arith
built org_member none id rules h = ground arith

-- Under CASL's laws, where the factory does not throw, the guard answers a user with one role as the
-- table says, for each action and each subject: yes, or forbidden. The table is that of the code: a
-- member may read the users and the subscription of the organisation.
pub authorize-permits :
    (can : Can) (laws : CaslLaws can) (ctx : TenantContextPayload) (r : Role) (rules : List Rule)
    → ctx.roles ≡ r ∷ []
    → create_for_context ctx ≡ returned rules
    → (a : CaslAction) (s : CaslSubject)
    → authorize can (some (a, s)) (some ctx)
      ≡ (if permits r a s then returned true else thrown forbidden)
unfolding authorize create_for_context decide
authorize-permits can laws ctx r rules role made a s =
    let (o, u, known) = built r ctx.organization_id ctx.user_id rules (
      subst
        (λ roles.
          after_platform roles (
            if includes roles org_admin || includes roles org_member
            then scoped_rules roles ctx.organization_id ctx.user_id
            else returned [])
          ≡ returned rules)
        role made) in
    let asked : can (rules_of r o u) a s ≡ permits r a s =
      can-verdict can laws a s (rules_of r o u) ∙ verdict-permits o u r s a in
    ap (decide can a s) (made ∙ ap returned known) ∙ rw asked refl

-- ===== src/Authorization/Tests.antt =====
-- CASL as the last rule that covers the question, and the table at one member.
use multi_tenant_subscriptio.Base.{
  Bool, List, [], false, if◌then◌else◌, refl, some, true, ◌++◌, ◌∷◌, ◌≡◌,
}
use multi_tenant_subscriptio.Common.{TenantContextPayload, forbidden, org_admin, org_member}
use multi_tenant_subscriptio.Authorization.Ability.{
  Can, CaslAction, CaslSubject, Rule, authorize, can_rule, cannot_rule, create_for_context, decide,
  delete, member_rules, update, user,
}
use multi_tenant_subscriptio.Authorization.Decisions.{CaslLaws, authorize-permits, covers, verdict}
use multi_tenant_subscriptio.Database.{thrown}

abbrev last_rule : Can
last_rule rules a s = verdict false rules a s

verdict-snoc :
    (v : Bool) (rules : List Rule) (r : Rule) (a : CaslAction) (s : CaslSubject)
    → verdict v (rules ++ r ∷ []) a s ≡ verdict (verdict v rules a s) (r ∷ []) a s
verdict-snoc v [] r a s = refl
verdict-snoc v (can_rule a' s' cs ∷ rules) r a s =
    verdict-snoc (if covers a' s' a s then true else v) rules r a s
verdict-snoc v (cannot_rule a' s' ∷ rules) r a s =
    verdict-snoc (if covers a' s' a s then false else v) rules r a s

laws : CaslLaws last_rule
laws = record {
  can_empty = λ a s. refl;
  can_can = λ rules a' s' cs a s. verdict-snoc false rules (can_rule a' s' cs) a s;
  can_cannot = λ rules a' s' a s. verdict-snoc false rules (cannot_rule a' s') a s;
}

abbrev member : TenantContextPayload
member = record {
  user_id = some 2;
  organization_id = some 9;
  roles = org_member ∷ [];
  correlation_id = 3;
  iat = 100;
  exp = 130;
}

-- An admin who is a member too may not change users: the member's rules come last.
both_roles :
    authorize last_rule
      (some (update, user))
      (some (record member { roles = org_admin ∷ org_member ∷ [] }))
    ≡ thrown forbidden
unfolding authorize create_for_context decide
both_roles = refl

authorize-permits_example :
    authorize last_rule (some (delete, user)) (some member) ≡ thrown forbidden
unfolding create_for_context
authorize-permits_example =
    authorize-permits last_rule laws member org_member (member_rules 9 2) refl refl delete user

-- ===== src/Oauth/Accounts.antt =====
-- The identity engine over the memory adapter: what a run of `resolveOAuth` does to the accounts.
use authenik8_core_beta.Common.{
  ℕ, ◌≤◌, ◌≡◌, ◌≢◌, refl, sym, ap, ◌∙◌, subst, Bool, false, Option, some, arith,
}
use authenik8_core_beta.Common.Text.{Text}
use authenik8_core_beta.Common.Trim.{IsNormalizing}
use authenik8_core_beta.Common.Dict.{Dict, lookup, lookup-insert_fresh, lookup-insert_ne}
use authenik8_core_beta.Common.Value.{Value}
use authenik8_core_beta.Common.Effects.{Result, ok}
use authenik8_core_beta.Common.Effects.Async.{M}
use authenik8_core_beta.Common.Effects.Hoare.{
  Keeps, IsPreorder, Keeps-bind, Keeps-lift-bind, Keeps-pure,
}
use authenik8_core_beta.Audit.{AuditEmitter, AuditEventInput}
use authenik8_core_beta.Oauth.Validation.{IdentityProviderRecord, IdentityUser}
use authenik8_core_beta.Oauth.Policy.{IdentityPolicy, can_auto_link}
use authenik8_core_beta.Oauth.Engine.{
  login, link, TokenRequest, Tokens, Dependencies, OAuthArgs, parse_mode, parse_verified,
  parse_user_id, resolve_oauth,
}
use authenik8_core_beta.Oauth.Engine.Frames.{
  KeepsWithoutLink, KeepsForLink, login_makes_no_link, link_request_links_only,
}
use authenik8_core_beta.Oauth.Memory.{
  Memory, get_users, new_user, random_uuid, find_user_by_id, find_user_by_email,
  find_user_by_provider, owner_of_email, owner_of_provider, create_user, link_provider,
  add_provider, memory_adapter,
}
use authenik8_core_beta.Oauth.Memory.Outcomes.{
  Creation, refused, provider_taken, email_taken, added, create_user-Creation, Linking, owned,
  missing, full, present, linked, LinkRun, rejected, validated, link_provider-LinkRun,
}
use authenik8_core_beta.Oauth.Memory.Invariant.{
  NeverRepeats, IsConsistent, create_user-IsConsistent, link_provider-IsConsistent,
  random_uuid-IsConsistent,
}

-- The service over the memory adapter, with a token service and audit sinks of the application.
unfoldable pub memory_service :
    (Text → Text)
    → (ℕ → Text)
    → IdentityPolicy
    → (TokenRequest → M Memory Tokens)
    → AuditEmitter Memory
    → Dependencies Memory
memory_service lower_case uuid policy issue_tokens audit = record {
  adapter = memory_adapter lower_case uuid;
  issue_tokens = issue_tokens;
  audit = audit;
  policy = policy;
  random_uuid = random_uuid uuid;
  lower_case = lower_case;
}

-- Consistency is kept, and every account stays exactly as it was.
pub record KeepsAccounts (uuid : ℕ → Text) (s t : Memory) : Type 0 where
  pub consistent : IsConsistent uuid s → IsConsistent uuid t
  pub accounts :
      IsConsistent uuid s
      → (k : Text) (u : IdentityUser) → lookup k s.users ≡ some u
      → lookup k t.users ≡ some u

KeepsAccounts-IsPreorder : (uuid : ℕ → Text) → IsPreorder (KeepsAccounts uuid)
KeepsAccounts-IsPreorder uuid = record {
  reflexive = λ s. record { consistent = λ c. c; accounts = λ c k u h. h };
  transitive = λ s t r h g. record {
    consistent = λ c. g.consistent (h.consistent c);
    accounts = λ c k u l. g.accounts (h.consistent c) k u (h.accounts c k u l);
  };
}

module _ (lower_case : Text → Text) (uuid : ℕ → Text) (law : IsNormalizing lower_case)
    (unique : NeverRepeats uuid) where
  Creation-accounts :
      (e p n : Text) (s : Memory) {out : Result Value × Memory}
      → IsConsistent uuid s
      → Creation lower_case uuid e p n s out
      → (k : Text) (u : IdentityUser) → lookup k s.users ≡ some u
      → lookup k out.1.users ≡ some u
  Creation-accounts e p n s c (refused error why) k u l = l
  Creation-accounts e p n s c (provider_taken f i v r h) k u l = l
  Creation-accounts e p n s c (email_taken f i v r h g) k u l = l
  Creation-accounts e p n s c (added f i r h g) k u l =
      lookup-insert_fresh (uuid s.supply) k (new_user (uuid s.supply) f i) u s.users
        (c.fresh s.supply (omega arith)) l

  create_user-KeepsAccounts :
      (e p n : Text) → Keeps (KeepsAccounts uuid) (create_user lower_case uuid e p n)
  create_user-KeepsAccounts e p n = record {
    holds = λ s. record {
      consistent = create_user-IsConsistent lower_case uuid unique law e p n s;
      accounts =
          λ c. Creation-accounts e p n s c (create_user-Creation lower_case uuid law e p n s);
    };
  }

module _ {R : Memory → Memory → Type 0} (order : IsPreorder R) where
  get_users-Keeps : Keeps R get_users
  unfolding get_users
  get_users-Keeps = record { holds = λ s. order.reflexive s }

  find_user_by_id-Keeps : (i : Text) → Keeps R (find_user_by_id i)
  unfolding find_user_by_id
  find_user_by_id-Keeps i =
      Keeps-lift-bind order _ _ λ j _. Keeps-bind order _ _ get_users-Keeps λ m. Keeps-pure order _

  find_user_by_email-Keeps :
      (lower_case : Text → Text) (e : Text) → Keeps R (find_user_by_email lower_case e)
  unfolding find_user_by_email owner_of_email
  find_user_by_email-Keeps lower_case e =
      Keeps-bind order _ _
        (Keeps-lift-bind order _ _
          λ f _. Keeps-bind order _ _ get_users-Keeps λ m. Keeps-pure order _)
        λ o. Keeps-pure order _

  find_user_by_provider-Keeps : (p n : Text) → Keeps R (find_user_by_provider p n)
  unfolding find_user_by_provider owner_of_provider
  find_user_by_provider-Keeps p n =
      Keeps-bind order _ _
        (Keeps-lift-bind order _ _
          λ i _. Keeps-bind order _ _ get_users-Keeps λ m. Keeps-pure order _)
        λ o. Keeps-pure order _

random_uuid-KeepsAccounts : (uuid : ℕ → Text) → Keeps (KeepsAccounts uuid) (random_uuid uuid)
unfolding random_uuid
random_uuid-KeepsAccounts uuid = record {
  holds = λ s. record {
    consistent = unfold random_uuid in random_uuid-IsConsistent uuid s;
    accounts = λ c k u l. l;
  };
}

-- The users stay, and identifiers may have been given out.
pub record SameUsers (s t : Memory) : Type 0 where
  pub users : t.users ≡ s.users
  pub supply : s.supply ≤ t.supply

-- A call of the application's services that leaves the users of the store alone.
abbrev pub LeavesUsers : {A : Type 0} → M Memory A → Type 0
LeavesUsers m = Keeps SameUsers m

later_supply-IsConsistent :
    (uuid : ℕ → Text) (users : Dict IdentityUser) (m n : ℕ)
    → m ≤ n
    → IsConsistent uuid (record { users = users; supply = m })
    → IsConsistent uuid (record { users = users; supply = n })
later_supply-IsConsistent uuid users m n h c = record {
  distinct = c.distinct;
  keyed = c.keyed;
  one_email = c.one_email;
  one_owner = c.one_owner;
  fresh = λ k le. c.fresh k (omega arith);
}

SameUsers-IsConsistent :
    (uuid : ℕ → Text) (s t : Memory) → SameUsers s t → IsConsistent uuid s → IsConsistent uuid t
SameUsers-IsConsistent uuid s t same c =
    later_supply-IsConsistent uuid t.users s.supply t.supply same.supply
      (subst (λ u. IsConsistent uuid (record { users = u; supply = s.supply })) (sym same.users) c)

LeavesUsers-KeepsAccounts :
    {A : Type 0} (uuid : ℕ → Text) {m : M Memory A} → LeavesUsers m → Keeps (KeepsAccounts uuid) m
LeavesUsers-KeepsAccounts uuid {m} k = record {
  holds = λ s. record {
    consistent = SameUsers-IsConsistent uuid s (m s).1 (k.holds s);
    accounts = λ c i u l. subst (λ us. lookup i us ≡ some u) (sym (k.holds s).users) l;
  };
}

-- Consistency is kept, and all accounts but one stay as they were.
pub record KeepsOthers (uuid : ℕ → Text) (target : Option Text) (s t : Memory) : Type 0 where
  pub consistent : IsConsistent uuid s → IsConsistent uuid t
  pub others : (k : Text) → some k ≢ target → lookup k t.users ≡ lookup k s.users
  pub supply : s.supply ≤ t.supply

KeepsOthers-IsPreorder :
    (uuid : ℕ → Text) (target : Option Text) → IsPreorder (KeepsOthers uuid target)
KeepsOthers-IsPreorder uuid target = record {
  reflexive = λ s. record { consistent = λ c. c; others = λ k h. refl; supply = omega arith };
  transitive = λ s t r h g. record {
    consistent = λ c. g.consistent (h.consistent c);
    others = λ k other. g.others k other ∙ h.others k other;
    supply = omega (arith, h.supply, g.supply);
  };
}

LeavesUsers-KeepsOthers :
    {A : Type 0} (uuid : ℕ → Text) (target : Option Text) {m : M Memory A}
    → LeavesUsers m
    → Keeps (KeepsOthers uuid target) m
LeavesUsers-KeepsOthers uuid target {m} k = record {
  holds = λ s. record {
    consistent = SameUsers-IsConsistent uuid s (m s).1 (k.holds s);
    others = λ i other. ap (lookup i) (k.holds s).users;
    supply = (k.holds s).supply;
  };
}

abbrev Untouched : Text → Memory → Memory → Type 0
Untouched i s t = ((k : Text) → k ≢ i → lookup k t.users ≡ lookup k s.users) × (s.supply ≤ t.supply)

Linking-Untouched :
    (i : Text) (identity : IdentityProviderRecord) (s : Memory) {out : Result (Unit {0}) × Memory}
    → Linking i identity s out
    → Untouched i s out.1
Linking-Untouched i identity s (owned o f g) = ((λ k h. refl), omega arith)
Linking-Untouched i identity s (missing g) = ((λ k h. refl), omega arith)
Linking-Untouched i identity s (full u l g) = ((λ k h. refl), omega arith)
Linking-Untouched i identity s (present u l g) = ((λ k h. refl), omega arith)
Linking-Untouched i identity s (linked u f l g few) =
    ((λ k other. lookup-insert_ne i k (add_provider identity u) s.users other), omega arith)

LinkRun-others :
    (i p n : Text) (s : Memory) {out : Result (Unit {0}) × Memory}
    → LinkRun i p n s out
    → Untouched i s out.1
LinkRun-others i p n s (rejected error why) = ((λ k h. refl), omega arith)
LinkRun-others i p n s (validated identity valid h run) = Linking-Untouched i identity s run

link_provider-KeepsOthers :
    (uuid : ℕ → Text) (i p n : Text) → Keeps (KeepsOthers uuid (some i)) (link_provider i p n)
link_provider-KeepsOthers uuid i p n = record {
  holds = λ s.
      let (others, supply) = LinkRun-others i p n s (link_provider-LinkRun i p n s) in
      record {
        consistent = link_provider-IsConsistent uuid i p n s;
        others = λ k other. others k (λ e. other (ap some e));
        supply = supply;
      };
}

module _ (lower_case : Text → Text) (uuid : ℕ → Text) (policy : IdentityPolicy)
    (issue_tokens : TokenRequest → M Memory Tokens) (audit : AuditEmitter Memory)
    (law : IsNormalizing lower_case) (unique : NeverRepeats uuid)
    (issue_tokens_leaves : (t : TokenRequest) → LeavesUsers (issue_tokens t))
    (audit_leaves : (e : AuditEventInput) → LeavesUsers (audit e)) where
  abbrev service : Dependencies Memory
  service = memory_service lower_case uuid policy issue_tokens audit

  service-KeepsWithoutLink : KeepsWithoutLink service (KeepsAccounts-IsPreorder uuid)
  unfolding memory_service memory_adapter
  service-KeepsWithoutLink =
      let order = KeepsAccounts-IsPreorder uuid in
      record {
        by_id = find_user_by_id-Keeps order;
        by_email = find_user_by_email-Keeps order lower_case;
        by_provider = find_user_by_provider-Keeps order;
        creation = create_user-KeepsAccounts lower_case uuid law unique;
        tokens = λ t. LeavesUsers-KeepsAccounts uuid (issue_tokens_leaves t);
        audit = λ e. LeavesUsers-KeepsAccounts uuid (audit_leaves e);
        uuid = random_uuid-KeepsAccounts uuid;
      }

  -- Over a consistent store, a log-in that the policy does not let link by email leaves every
  -- existing account exactly as it was, and the store consistent, whether it succeeds or throws: an
  -- attacker who controls a provider account with somebody's email does not get into that account.
  pub login_keeps_accounts :
      (args : OAuthArgs) (s : Memory)
      → parse_mode args.mode ≡ ok login
      → ((verified : Bool)
          → parse_verified args.email_verified ≡ ok verified
          → can_auto_link verified policy ≡ false)
      → KeepsAccounts uuid s (resolve_oauth service args s).1
  login_keeps_accounts args s m refuses =
      (login_makes_no_link service (KeepsAccounts-IsPreorder uuid) args service-KeepsWithoutLink m
          (unfold memory_service in refuses)).holds
        s

  service-KeepsForLink :
      (target : Option Text) (provider : IdentityProviderRecord)
      → KeepsForLink service (KeepsOthers-IsPreorder uuid target) target provider
  unfolding memory_service memory_adapter
  service-KeepsForLink target provider =
      let order = KeepsOthers-IsPreorder uuid target in
      record {
        by_id = find_user_by_id-Keeps order;
        by_provider = find_user_by_provider-Keeps order;
        audit = λ e. LeavesUsers-KeepsOthers uuid target (audit_leaves e);
        linking = λ i h.
            subst
              (λ o.
                Keeps (KeepsOthers uuid o) (link_provider i provider.provider provider.provider_id))
              (sym h) (link_provider-KeepsOthers uuid i provider.provider provider.provider_id);
      }

  -- A link request changes no account but that of the authenticated user, creates none, and keeps a
  -- consistent store consistent, whether it succeeds or throws.
  pub link_request_keeps_others :
      (args : OAuthArgs) (target : Option Text) (s : Memory)
      → parse_mode args.mode ≡ ok link
      → parse_user_id args.user_id ≡ ok target
      → KeepsOthers uuid target s (resolve_oauth service args s).1
  link_request_keeps_others args target s m h =
      (link_request_links_only service (KeepsOthers-IsPreorder uuid target) args
          (λ provider user_id _ k.
            subst (λ o. KeepsForLink service (KeepsOthers-IsPreorder uuid target) o provider) (cc)
              (service-KeepsForLink target provider))
          m).holds
        s

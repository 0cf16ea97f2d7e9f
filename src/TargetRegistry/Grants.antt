-- ===== src/TargetRegistry/Grants.antt =====
-- What an authorization proves about the configuration that it comes from.
use enhanced_ssh.Prelude.{
  includes, ℕ, Each, any, codes, ◌==◌, ==_iff, leb, tests, false, ◌≢◌, [], ◌∷◌, ◌≤◌, true, ◌&&◌,
  ◌||◌, String, List, Option, none, some, ◌≡◌, refl, sym, ap, ◌∙◌, ◌⊎◌, inl, inr, arith, subst,
  Option-cases, get,
}
use enhanced_ssh.Result.{ok, bind-ok, require-ok, ok-injective}
use enhanced_ssh.TargetRegistry.Types.{
  TargetConfig, RegistryEntry, RegisteredTarget, Runtime, TargetAuthorization, TargetPolicy,
  allow_list_policy, full_access_policy, deny_policy, preset_policy, full_access,
}
use enhanced_ssh.TargetRegistry.Index.{
  TargetRegistry, create_entry, create, require_target, mode_of, policy_timeout, commands_of,
  is_full_access,
}
use enhanced_ssh.TargetRegistry.Authorize.{
  authorize, authorize_timeout, fits_timeout, allows, is_command, is_allow_list,
}
use enhanced_ssh.TargetRegistry.IndexLaws.{Configured, create-Indexed}

-- The timeout is the one that was asked for, from 1 through the maximum, or else the maximum.
pub data TimeoutGranted (maximum ms : ℕ) : Option ℕ → Type 0 where
  whole : ms ≡ maximum → TimeoutGranted maximum ms none
  lowered : 1 ≤ ms → ms ≤ maximum → TimeoutGranted maximum ms (some ms)

pub fits_timeout-bounds :
    (ms maximum : ℕ) → fits_timeout (some ms) maximum ≡ true → (1 ≤ ms) × (ms ≤ maximum)
fits_timeout-bounds ms maximum fits = ground arith

authorize_timeout-Granted :
    (target : RegisteredTarget) (requested : Option ℕ) (ms : ℕ)
    → authorize_timeout target requested ≡ ok ms
    → TimeoutGranted target.max_timeout_ms ms requested
unfolding authorize_timeout
authorize_timeout-Granted target none ms e = whole (sym (ok-injective e))
authorize_timeout-Granted target (some n) ms e =
    let (fits, same) = require-ok (fits_timeout (some n) target.max_timeout_ms) _ (ok n) e in
    let (least, most) = fits_timeout-bounds n target.max_timeout_ms fits in
    subst (λ k. TimeoutGranted target.max_timeout_ms k (some n)) (ok-injective same)
      (lowered least most)

-- A command that is not blank, has no NUL and no line break, and at most 65536 bytes.
pub record OneCommand (runtime : Runtime) (command : String) : Type 0 where
  pub said : runtime.is_blank command ≡ false
  pub one_line : Each (λ c. (c ≢ b'\0') × (c ≢ b'\n') × (c ≢ b'\r')) (codes command)
  pub size : runtime.byte_length command ≤ 65536

no-break :
    (cs : List ℕ)
    → any (λ c. c == 0 || c == 13 || c == 10) cs ≡ false
    → Each (λ c. (c ≢ b'\0') × (c ≢ b'\n') × (c ≢ b'\r')) cs
no-break [] h = tt
no-break (c ∷ cs) h = ground (arith, no-break cs, ==_iff c 0, ==_iff c 13, ==_iff c 10)

command-OneCommand :
    (runtime : Runtime) (command : String)
    → is_command runtime command ≡ true
    → OneCommand runtime command
command-OneCommand runtime command h = record {
  said = ground arith;
  one_line = no-break (codes command) (ground arith);
  size = omega (tests, size);
}
  where
    size : leb (runtime.byte_length command) 65536 ≡ true
    size = ground arith

module _ {S : Type 0} (runtime : Runtime) where
  -- The target is that of an enabled configuration, under one of whose references the client asked.
  pub record Resolves (configs : List (String × TargetConfig S)) (asked : String)
      (target : RegisteredTarget) : Type 0 where
    pub entry : RegistryEntry S
    pub source : Configured runtime configs (runtime.lower asked) entry
    pub is_target : target ≡ entry.target
    pub enabled : source.config.enabled ≡ true

  require-found :
      (registry : TargetRegistry S) (asked : String) (target : RegisteredTarget)
      → require_target runtime registry asked ≡ ok target
      → (entry : RegistryEntry S) × (get (runtime.lower asked) registry.references ≡ some entry)
        × (target ≡ entry.target)
        × (entry.target.enabled ≡ true)
  unfolding require_target
  require-found registry asked target e =
      elim (Option-cases (get (runtime.lower asked) registry.references)) [
        | inl absent ↦ absurd (ground arith)
        | inr (entry, there) ↦ (entry, there, ground arith, ground arith)
      ]

  pub require-Resolves :
      (configs : List (String × TargetConfig S)) (local_roots : List (String × String))
      (registry : TargetRegistry S) (asked : String) (target : RegisteredTarget)
      → create runtime configs local_roots ≡ ok registry
      → require_target runtime registry asked ≡ ok target
      → (r : Resolves configs asked target) × (get (runtime.lower asked) registry.references
          ≡ some r.entry)
  unfolding create_entry
  require-Resolves configs local_roots registry asked target made e =
      let (entry, there, same, open_now) = require-found registry asked target e in
      let source =
        (create-Indexed runtime configs local_roots registry made).origin _ entry there in
      (
        record {
          entry = entry;
          source = source;
          is_target = same;
          enabled = subst (λ y. y.target.enabled ≡ true) source.made open_now;
        },
        there,
      )

  authorize-ok :
      (registry : TargetRegistry S) (asked command : String) (requested : Option ℕ)
      (granted : TargetAuthorization)
      → authorize runtime registry asked command requested ≡ ok granted
      → (require_target runtime registry asked ≡ ok granted.target)
        × ((entry : RegistryEntry S) × (get granted.target.alias registry.entries ≡ some entry)
            × (allows entry granted.target command ≡ true))
        × (is_command runtime command ≡ true)
        × (authorize_timeout granted.target requested ≡ ok granted.timeout_ms)
  unfolding authorize
  authorize-ok registry asked command requested granted e =
      let (target, found, rest) = bind-ok (require_target runtime registry asked) _ (sym e) in
      elim (Option-cases (get target.alias registry.entries)) [
        | inl absent ↦ absurd (ground arith)
        | inr (entry, there) ↦
            let (valid, passed) =
              require-ok (is_command runtime command) _ _ (sym (rw there at rest)) in
            let (allowed, left) = require-ok (allows entry target command) _ _ passed in
            let (ms, short, done) = bind-ok (authorize_timeout target requested) _ (sym left) in
            subst
              (λ g.
                (require_target runtime registry asked ≡ ok g.target)
                × ((x : RegistryEntry S) × (get g.target.alias registry.entries ≡ some x)
                    × (allows x g.target command ≡ true))
                × (is_command runtime command ≡ true)
                × (authorize_timeout g.target requested ≡ ok g.timeout_ms))
              (ok-injective (sym done)) (found, (entry, there, allowed), valid, short)
      ]

  -- The grounds of an authorization to run a command.
  pub record CommandGranted (configs : List (String × TargetConfig S)) (asked command : String)
      (requested : Option ℕ) (granted : TargetAuthorization) : Type 0 where
    pub resolved : Resolves configs asked granted.target
    pub policy :
        (mode_of resolved.source.config.policy ≡ full_access)
        ⊎ (includes command (commands_of resolved.source.config.policy) ≡ true)
    pub one : OneCommand runtime command
    pub timeout :
        TimeoutGranted (policy_timeout resolved.source.config.policy) granted.timeout_ms requested

  policy_allows :
      (p : TargetPolicy S) (command : String)
      → (is_full_access (mode_of p)
          || (is_allow_list (mode_of p) && includes command (commands_of p)))
        ≡ true
      → (mode_of p ≡ full_access) ⊎ (includes command (commands_of p) ≡ true)
  policy_allows (allow_list_policy commands ms) command h = inr h
  policy_allows (full_access_policy ms) command h = inl refl
  policy_allows (deny_policy ms) command h = absurd (ground arith)
  policy_allows (preset_policy selection ms) command h = absurd (ground arith)

  allows-policy :
      (alias : String) (config : TargetConfig S) (command : String)
      → allows
          (create_entry runtime alias config)
          (create_entry runtime alias config).target
          command
        ≡ true
      → (mode_of config.policy ≡ full_access)
        ⊎ (includes command (commands_of config.policy) ≡ true)
  unfolding allows create_entry
  allows-policy alias config command h = policy_allows config.policy command h

  create_entry-timeout :
      (alias : String) (config : TargetConfig S)
      → (create_entry runtime alias config).target.max_timeout_ms ≡ policy_timeout config.policy
  unfolding create_entry
  create_entry-timeout alias config = refl

  -- The entry that is filed under the alias of the target is the entry that the reference found.
  pub same_entry :
      (configs : List (String × TargetConfig S)) (local_roots : List (String × String))
      (registry : TargetRegistry S) (asked : String) (target : RegisteredTarget)
      (entry found : RegistryEntry S)
      → create runtime configs local_roots ≡ ok registry
      → get (runtime.lower asked) registry.references ≡ some found
      → target ≡ found.target
      → get target.alias registry.entries ≡ some entry
      → entry ≡ found
  same_entry configs local_roots registry asked target entry found made there same filed =
      let (under, back) =
        (create-Indexed runtime configs local_roots registry made).filed _ found there in
      let filed' : get found.target.alias registry.entries ≡ some entry =
        subst (λ t. get t.alias registry.entries ≡ some entry) same filed in
      ground arith

  -- In a registry that was constructed, an authorization to run a command rests on an enabled
  -- configuration under one of whose references the client asked, whose policy is full access or
  -- lists the very command. The command is not blank, has no NUL and no line break, and at most 65536
  -- bytes. The timeout is the one asked for, from 1 through the maximum, or else the maximum.
  pub authorize-CommandGranted :
      (configs : List (String × TargetConfig S)) (local_roots : List (String × String))
      (registry : TargetRegistry S) (asked command : String) (requested : Option ℕ)
      (granted : TargetAuthorization)
      → create runtime configs local_roots ≡ ok registry
      → authorize runtime registry asked command requested ≡ ok granted
      → CommandGranted configs asked command requested granted
  authorize-CommandGranted configs local_roots registry asked command requested granted made e =
      let (found, (entry, filed, allowed), valid, short) =
        authorize-ok registry asked command requested granted e in
      let (r, there) =
        require-Resolves configs local_roots registry asked granted.target made found in
      let same =
        same_entry configs local_roots registry asked granted.target entry r.entry made there
          r.is_target filed in
      let same_target = r.is_target ∙ ap (λ y. y.target) r.source.made in
      let in_config =
        subst (λ y. allows y granted.target command ≡ true) (same ∙ r.source.made) allowed in
      let most =
        ap (λ y. y.max_timeout_ms) same_target
        ∙ create_entry-timeout r.source.alias r.source.config in
      record {
        resolved = r;
        policy = allows-policy r.source.alias r.source.config command (
            subst
              (λ y. allows (create_entry runtime r.source.alias r.source.config) y command ≡ true)
              same_target in_config);
        one = command-OneCommand runtime command valid;
        timeout =
            subst (λ m. TimeoutGranted m granted.timeout_ms requested) most
              (authorize_timeout-Granted granted.target requested granted.timeout_ms short);
      }

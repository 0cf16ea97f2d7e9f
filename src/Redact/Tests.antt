-- ===== src/Redact/Tests.antt =====
-- An object that holds itself, copied at work, and the theorems at concrete inputs. The runtime leaves
-- texts as they are.
use enhanced_ssh.Prelude.{ℕ, suc, ◌≤◌, true, false, [], ◌∷◌, none, some, ◌≡◌, refl}
use mathlib.Core.Option.{get_or as or_else}
use enhanced_ssh.Result.{ok}
use enhanced_ssh.RemoteCommand.Validate.{same_text}
use enhanced_ssh.Redact.{normalize_key, keep_key_characters, ends_with, is_sensitive_key}
use enhanced_ssh.Redact.Walk.{
  HeapObject, Copy, Runtime, visit_items, visit_value, visit_members, visit_object, visit_kind,
  visit, redact, string, primitive, reference, data_property, accessor, plain_object, text, kept,
  entries, close, member,
}
use enhanced_ssh.Redact.Secrecy.{hides, redact-hides}
use enhanced_ssh.Redact.Bounds.{depth, redact-depth}

run_redact : Unit {0}
unfolding same_text normalize_key keep_key_characters ends_with is_sensitive_key visit_items
    visit_value visit_members visit_object visit_kind visit redact
run_redact = tt

abbrev runtime : Runtime
runtime = record { redact_text = λ value. value; lower = λ value. value }

abbrev heap : ℕ → HeapObject ℕ
heap id = plain_object (
    ("user", data_property true (string "bob"))
    ∷ ("api_key", data_property true (primitive 7))
    ∷ ("hidden", data_property false (primitive 8))
    ∷ ("lazy", accessor true)
    ∷ ("self", data_property true (reference 0))
    ∷ ("stdout_bytes", data_property true (primitive 9))
    ∷ [])

abbrev copied : Copy ℕ
copied = entries (
    member "user" (text "bob") (
      member "api_key" (text "[REDACTED]") (
        member "lazy" (text "[REDACTED]")
          (member "self" (text "[CIRCULAR]") (member "stdout_bytes" (kept 9) close)))))

copied_is : redact runtime heap (reference 0) none none ≡ ok copied
unfolding run_redact
copied_is = refl

-- The walk stops at the third value that it counts.
cut_is :
    redact runtime heap (reference 0) (some 1) (some 2)
    ≡ ok (
        entries (
          member "user" (text "bob") (
            member "api_key" (text "[REDACTED]") (
              member "lazy" (text "[REDACTED]") (
                member "self"
                  (text "[TRUNCATED]")
                  (member "stdout_bytes" (text "[TRUNCATED]") close))))))
unfolding run_redact
cut_is = refl

redact-hides_example : hides (λ value. value) copied ≡ true
redact-hides_example = redact-hides runtime heap (reference 0) none none copied copied_is

redact-depth_example : depth copied ≤ suc (or_else none 12)
redact-depth_example = redact-depth runtime heap (reference 0) none none copied copied_is

-- ===== src/Detect/Events/Objects.antt =====
-- `eventObject` reads back what `Object.String` writes.
use Prim.Native.Char.{Char, code}
use Prim.Native.String.{String, ◌++◌}
use text.Mathlib.TextLemmas.{nil-append, cons-append}
use ma_klaude.Prelude.{
  [], ◌∷◌, if◌then◌else◌, ◌==◌, string_comparable, Bool-cases, ◌≡◌, ◌≢◌, refl, sym, ap, inl, inr,
  beq_of_ne, eq_iff, nat_comparable, ◌∙◌,
}
use ma_klaude.Health.{EventSignal}
use ma_klaude.Detect.Finding.{Object, object_text}
use ma_klaude.Detect.Rules.{Printing}
use ma_klaude.Detect.Events.{slash, onto_first, split_slash, event_object_of, event_object}

-- A text without `/`.
abbrev pub NoSlash : String → Type 0
NoSlash String.[] = Unit
NoSlash (String.◌∷◌ c s) = (code c ≢ slash) × NoSlash s

split_slash-cons :
    (c : Char) (s : String)
    → code c ≢ slash
    → split_slash (String.◌∷◌ c s) ≡ onto_first c (split_slash s)
unfolding split_slash
split_slash-cons c s h =
    ap (λ b. if b then "" ∷ split_slash s else onto_first c (split_slash s))
      (beq_of_ne (code c) slash h)

split_slash-plain : (s : String) → NoSlash s → split_slash s ≡ s ∷ []
unfolding split_slash
split_slash-plain String.[] h = refl
split_slash-plain (String.◌∷◌ c s) h =
    split_slash-cons c s h.0 ∙ ap (onto_first c) (split_slash-plain s h.1)

split_slash-append : (s t : String) → NoSlash s → split_slash (s ++ ("/" ++ t)) ≡ s ∷ split_slash t
unfolding split_slash
split_slash-append String.[] t h =
    ap split_slash (nil-append ("/" ++ t)) ∙ rw (cons-append, nil-append) refl
split_slash-append (String.◌∷◌ c s) t h =
    ap split_slash (cons-append c s ("/" ++ t))
    ∙ split_slash-cons c (s ++ ("/" ++ t)) h.0
    ∙ ap (onto_first c) (split_slash-append s t h.1)

-- The reference of an event to an object whose kind, namespace and name hold no `/` is read as that
-- object, with the kind in lower case; the namespace may be empty.
pub event_object-object_text :
    (go : Printing) (e : EventSignal) (o : Object)
    → NoSlash o.kind
    → NoSlash o.namespace
    → NoSlash o.name
    → e.involved_object ≡ object_text o
    → event_object go e ≡ record o { kind = go.to_lower o.kind }
unfolding event_object object_text
event_object-object_text go e o hk hs hn he = elim (Bool-cases (o.namespace == "")) [
  | inl t ↦
      ap (λ text. event_object_of go e (split_slash text))
        (he
          ∙ ap
              (λ b.
                if b
                then o.kind ++ "/" ++ o.name
                else o.kind ++ "/" ++ o.namespace ++ "/" ++ o.name)
              t)
      ∙ ap (event_object_of go e)
          (split_slash-append o.kind o.name hk ∙ ap (◌∷◌ o.kind) (split_slash-plain o.name hn))
      ∙ ap (λ space. record { kind = go.to_lower o.kind; namespace = space; name = o.name })
          (sym ((eq_iff o.namespace "").0 t))
  | inr t ↦
      ap (λ text. event_object_of go e (split_slash text))
        (he
          ∙ ap
              (λ b.
                if b
                then o.kind ++ "/" ++ o.name
                else o.kind ++ "/" ++ o.namespace ++ "/" ++ o.name)
              t)
      ∙ ap (event_object_of go e) (
          split_slash-append o.kind (o.namespace ++ "/" ++ o.name) hk
          ∙ ap (◌∷◌ o.kind) (
              split_slash-append o.namespace o.name hs
              ∙ ap (◌∷◌ o.namespace) (split_slash-plain o.name hn)))
]

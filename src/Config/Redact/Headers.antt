-- ===== src/Config/Redact/Headers.antt =====
-- What RedactHeaders and RedactHTTPHeaders of internal/config/redact.go tell of the headers.
use daegsa.Prelude.{
  Bool, true, false, List, [], ◌∷◌, some, ◌≡◌, ◌↔◌, ◌⊎◌, inl, inr, refl, sym, ap, ◌∙◌,
  if◌then◌else◌,
}
use mathlib.Core.Bool.{false≢true}
use daegsa.Prelude.Text.{Text}
use daegsa.Prelude.Strings.{Unicode}
use daegsa.Config.Redact.Names.{IsSecret, is_sensitive_header-iff-IsSecret}
use daegsa.Config.Redact.{
  redacted_placeholder, is_sensitive_header, redact_entries, redact_headers, redact_http_headers,
}

module _ (unicode : Unicode) where
  -- The same names in the same order, with the same values but for the secret names.
  abbrev pub AgreesInPublic : {V : Type 0} → List (Text × V) → List (Text × V) → Type 0
  AgreesInPublic [] [] = Unit
  AgreesInPublic [] (_ ∷ _) = ⊥
  AgreesInPublic (_ ∷ _) [] = ⊥
  AgreesInPublic ((k, v) ∷ l) ((j, w) ∷ m) =
      (k ≡ j) × (IsSecret unicode k ⊎ (v ≡ w)) × AgreesInPublic l m

  kept_apart :
      {V : Type 0} (redacted v w : V) (b : Bool)
      → (if b then redacted else v) ≡ (if b then redacted else w)
      → (b ≡ true) ⊎ (v ≡ w)
  kept_apart redacted v w true h = inl refl
  kept_apart redacted v w false h = inr h

  hidden :
      {V : Type 0} (redacted v w : V) (b : Bool)
      → (b ≡ true) ⊎ (v ≡ w)
      → (if b then redacted else v) ≡ (if b then redacted else w)
  hidden redacted v w true h = refl
  hidden redacted v w false (inl e) = absurd (false≢true e)
  hidden redacted v w false (inr q) = q

  IsSecret-or :
      {V : Type 0} {v w : V} (k : Text)
      → (is_sensitive_header unicode k ≡ true) ⊎ (v ≡ w)
      → IsSecret unicode k ⊎ (v ≡ w)
  IsSecret-or k (inl h) = inl ((is_sensitive_header-iff-IsSecret unicode k).0 h)
  IsSecret-or k (inr q) = inr q

  sensitive_or :
      {V : Type 0} {v w : V} (k : Text)
      → IsSecret unicode k ⊎ (v ≡ w)
      → (is_sensitive_header unicode k ≡ true) ⊎ (v ≡ w)
  sensitive_or k (inl h) = inl ((is_sensitive_header-iff-IsSecret unicode k).1 h)
  sensitive_or k (inr q) = inr q

  cons_parts :
      {V : Type 0} {k j : Text} {v w : V} {l m : List (Text × V)}
      → (k, v) ∷ l ≡ (j, w) ∷ m
      → (k ≡ j) × (v ≡ w) × (l ≡ m)
  cons_parts h = (cc, cc, cc)

  some_inj : {A : Type 0} {a b : A} → some a ≡ some b → a ≡ b
  some_inj h = cc

  no_entry : {V : Type 0} {e : Text × V} {l : List (Text × V)} → [] ≡ e ∷ l → ⊥
  no_entry h = cc

  entries_sound :
      {V : Type 0} (redacted : V) (l m : List (Text × V))
      → redact_entries unicode redacted l ≡ redact_entries unicode redacted m
      → AgreesInPublic l m
  entries_sound redacted [] [] h = tt
  entries_sound redacted [] (_ ∷ _) h = absurd (no_entry h)
  entries_sound redacted (_ ∷ _) [] h = absurd (no_entry (sym h))
  entries_sound redacted ((k, v) ∷ l) ((j, w) ∷ m) h =
      let (names, values, rest) = cons_parts h in
      (
        names,
        IsSecret-or k (
            kept_apart redacted v w _ (
              values
              ∙ ap (λ n. if is_sensitive_header unicode n then redacted else w) (sym names))),
        entries_sound redacted l m rest,
      )

  entries_complete :
      {V : Type 0} (redacted : V) (l m : List (Text × V))
      → AgreesInPublic l m
      → redact_entries unicode redacted l ≡ redact_entries unicode redacted m
  entries_complete redacted [] [] h = refl
  entries_complete redacted [] (_ ∷ _) h = elim h [ ]
  entries_complete redacted (_ ∷ _) [] h = elim h [ ]
  entries_complete redacted ((k, v) ∷ l) ((j, w) ∷ m) (names, same, rest) =
      let values = hidden redacted v w (is_sensitive_header unicode k) (sensitive_or k same) in
      let others = entries_complete redacted l m rest in rw (← names, values, others) refl

  -- Two maps of headers redact to the same map exactly when they have the same names and, at each
  -- name, the same value or a name that holds one of the nine words "auth", "token", "secret",
  -- "cookie", "credential", "key", "password", "passwd" and "session", spaces around it and the case of
  -- its letters aside: the redaction hides the values of these names whatever they are, and nothing
  -- else. So it is for RedactHeaders and for RedactHTTPHeaders.
  pub redact_headers-iff-AgreesInPublic :
      (l m : List (Text × Text)) (lists others : List (Text × List Text))
      → ((redact_headers unicode (some l) ≡ redact_headers unicode (some m)) ↔ AgreesInPublic l m)
        × ((redact_http_headers unicode (some lists) ≡ redact_http_headers unicode (some others))
            ↔ AgreesInPublic lists others)
  unfolding redact_headers redact_http_headers
  redact_headers-iff-AgreesInPublic l m lists others = (
    (
      λ h. entries_sound redacted_placeholder l m (some_inj h),
      λ h. ap some (entries_complete redacted_placeholder l m h),
    ),
    (
      λ h. entries_sound (redacted_placeholder ∷ []) lists others (some_inj h),
      λ h. ap some (entries_complete (redacted_placeholder ∷ []) lists others h),
    ),
  )

-- ===== src/Config/Validate/Document/Keys.antt =====
-- checkDuplicateKeys of internal/config/validate.go against a description of a tree without repeated
-- keys.
use daegsa.Prelude.{
  Bool, true, false, List, [], ◌∷◌, Option, none, some, ◌≡◌, ◌↔◌, refl, if◌then◌else◌,
}
use daegsa.Prelude.Text.{Text}
use daegsa.Prelude.Distinct.{
  AreDistinct, AreNew, any_absent, absent_any, AreNew-AreDistinct, AreDistinct-AreNew,
}
use daegsa.Config.Validate.{ConfigError, duplicate_key}
use daegsa.Config.Validate.Document.{
  Node, document, mapping, sequence, scalar, Nodes, nil, cons, Fields, end, field, first_error,
  check_duplicate_keys, check_items, check_fields,
}

abbrev pub keys : Fields → List Text
keys end = []
keys (field key n l) = key ∷ keys l

-- No mapping of the tree has a key twice.
mutual
  pub HasDistinctKeys : Node → Type 0
  HasDistinctKeys (document l) = ItemsHaveDistinctKeys l
  HasDistinctKeys (mapping l) = AreDistinct (keys l) × ValuesHaveDistinctKeys l
  HasDistinctKeys (sequence l) = ItemsHaveDistinctKeys l
  HasDistinctKeys scalar = Unit

  pub ItemsHaveDistinctKeys : Nodes → Type 0
  ItemsHaveDistinctKeys nil = Unit
  ItemsHaveDistinctKeys (cons n l) = HasDistinctKeys n × ItemsHaveDistinctKeys l

  pub ValuesHaveDistinctKeys : Fields → Type 0
  ValuesHaveDistinctKeys end = Unit
  ValuesHaveDistinctKeys (field key n l) = HasDistinctKeys n × ValuesHaveDistinctKeys l

first_parts : (a b : Option ConfigError) → first_error a b ≡ none → (a ≡ none) × (b ≡ none)
first_parts none b h = (refl, h)
first_parts (some e) b h = cc

first_of : (a b : Option ConfigError) → a ≡ none → b ≡ none → first_error a b ≡ none
first_of none b p q = q
first_of (some e) b p q = cc

no_repeat : (b : Bool) → (if b then some duplicate_key else none) ≡ none → b ≡ false
no_repeat true h = cc
no_repeat false h = refl

mutual
  unfolding check_duplicate_keys HasDistinctKeys

  sound : (n : Node) → check_duplicate_keys n ≡ none → HasDistinctKeys n
  sound (document l) h = sound_items l h
  sound (mapping l) h =
      let (new, values) = sound_fields [] l h in (AreNew-AreDistinct (keys l) new, values)
  sound (sequence l) h = sound_items l h
  sound scalar h = tt

  sound_items : (l : Nodes) → check_items l ≡ none → ItemsHaveDistinctKeys l
  sound_items nil h = tt
  sound_items (cons n l) h =
      let (first, rest) = first_parts (check_duplicate_keys n) (check_items l) h in
      (sound n first, sound_items l rest)

  sound_fields :
      (seen : List Text) (l : Fields)
      → check_fields seen l ≡ none
      → AreNew seen (keys l) × ValuesHaveDistinctKeys l
  sound_fields seen end h = (tt, tt)
  sound_fields seen (field key n l) h =
      let (new, h') = first_parts _ _ h in
      let (first, rest) = first_parts (check_duplicate_keys n) (check_fields (key ∷ seen) l) h' in
      let (keys_new, values) = sound_fields (key ∷ seen) l rest in
      ((any_absent key seen (no_repeat _ new), keys_new), (sound n first, values))

mutual
  unfolding check_duplicate_keys HasDistinctKeys

  complete : (n : Node) → HasDistinctKeys n → check_duplicate_keys n ≡ none
  complete (document l) h = complete_items l h
  complete (mapping l) h = complete_fields [] l (AreDistinct-AreNew (keys l) h.0) h.1
  complete (sequence l) h = complete_items l h
  complete scalar h = refl

  complete_items : (l : Nodes) → ItemsHaveDistinctKeys l → check_items l ≡ none
  complete_items nil h = refl
  complete_items (cons n l) h = first_of _ _ (complete n h.0) (complete_items l h.1)

  complete_fields :
      (seen : List Text) (l : Fields)
      → AreNew seen (keys l)
      → ValuesHaveDistinctKeys l
      → check_fields seen l ≡ none
  complete_fields seen end new h = refl
  complete_fields seen (field key n l) new h =
      first_of _ _ (rw (absent_any key seen new.0) refl)
        (first_of _ _ (complete n h.0) (complete_fields (key ∷ seen) l new.1 h.1))

-- The check of a tree finds no error exactly when no mapping anywhere in the tree, below sequences
-- and mappings, has the same key twice.
pub check_duplicate_keys-iff-HasDistinctKeys :
    (n : Node) → (check_duplicate_keys n ≡ none) ↔ HasDistinctKeys n
check_duplicate_keys-iff-HasDistinctKeys n = (sound n, complete n)

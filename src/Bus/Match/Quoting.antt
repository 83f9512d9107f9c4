-- ===== src/Bus/Match/Quoting.antt =====
-- The quoting of values in the rules of src/bus/match.c.
pub mod Tests
use dbus_broker.Common.{
  ==_iff, sym, ℕ, Bytes, Bool, true, false, ◌&&◌, ◌||◌, not, Option, none, some, [], ◌∷◌, ◌++◌,
  ◌==◌, if◌then◌else◌, ◌≡◌, refl, arith, Bool-cases, inl, inr, ◌∙◌, ap,
}
use dbus_broker.Bus.Match.{copy_value, match_copy_value, prepend, apostrophe, backslash}

-- A rule's text for any value: apostrophes are escaped, and every other byte stands in apostrophes.
unfoldable pub quote : Bytes → Bytes
quote [] = []
quote (c ∷ v) =
    if c == apostrophe
    then backslash ∷ apostrophe ∷ quote v
    else apostrophe ∷ c ∷ apostrophe ∷ quote v

copy_value-apostrophe :
    (quoted : Bool) (s : Bytes) → copy_value quoted (apostrophe ∷ s) ≡ copy_value (not quoted) s
unfolding copy_value
copy_value-apostrophe true [] = refl
copy_value-apostrophe false [] = refl
copy_value-apostrophe quoted (c ∷ s) = refl

copy_value-escape :
    (s : Bytes)
    → copy_value false (backslash ∷ apostrophe ∷ s) ≡ prepend apostrophe (copy_value false s)
unfolding copy_value
copy_value-escape s = refl

copy_value-quoted :
    (c d : ℕ) (s : Bytes)
    → (c == apostrophe) ≡ false
    → copy_value true (c ∷ d ∷ s) ≡ prepend c (copy_value true (d ∷ s))
unfolding copy_value
copy_value-quoted c d s h = ground arith

copy_value-comma : (s : Bytes) → copy_value false (b',' ∷ s) ≡ some ([], s)
unfolding copy_value
copy_value-comma [] = refl
copy_value-comma (c ∷ s) = refl

copy_value-quote : (v rest : Bytes) → copy_value false (quote v ++ b',' ∷ rest) ≡ some (v, rest)
unfolding quote prepend
copy_value-quote [] rest = copy_value-comma rest
copy_value-quote (c ∷ v) rest = elim (Bool-cases (c == apostrophe)) [
  | inl e ↦ rw e (
      copy_value-escape (quote v ++ b',' ∷ rest)
      ∙ ap (prepend apostrophe) (copy_value-quote v rest)
      ∙ ap (λ x. some (x ∷ v, rest)) (sym ((==_iff c apostrophe).0 e)))
  | inr e ↦ rw e (
      copy_value-apostrophe false (c ∷ apostrophe ∷ (quote v ++ b',' ∷ rest))
      ∙ copy_value-quoted c apostrophe (quote v ++ b',' ∷ rest) e
      ∙ ap (prepend c)
          (copy_value-apostrophe true (quote v ++ b',' ∷ rest) ∙ copy_value-quote v rest))
]

-- Every value can be written in a rule: its quoted text, followed by a comma, is read back as the
-- value, and the rest of the rule begins behind the comma.
pub match_copy_value-quote :
    (v rest : Bytes) → match_copy_value (quote v ++ b',' ∷ rest) ≡ some (v, rest)
unfolding match_copy_value
match_copy_value-quote v rest = copy_value-quote v rest

-- ===== src/Jmap/Threading/Winner.antt =====
-- Which of several threads the others are merged into.
use yunt.Prelude.{
  ◌≡◌, refl, inl, inr, String, true, false, List, [], ◌∷◌, arith, str_eq, eq_iff, Bool-cases,
}
use yunt.Jmap.Threading.{mem, text_lt, pick_winner}

text_lt_irrefl : (s : String) → text_lt s s ≡ false
unfolding text_lt
text_lt_irrefl String.[] = refl
text_lt_irrefl (String.◌∷◌ c s) = ground (arith, text_lt_irrefl s)

text_lt_trans : (s t u : String) → text_lt s t ≡ true → text_lt t u ≡ true → text_lt s u ≡ true
unfolding text_lt
text_lt_trans s String.[] u h k = cc
text_lt_trans s (String.◌∷◌ d t) String.[] h k = cc
text_lt_trans String.[] (String.◌∷◌ d t) (String.◌∷◌ e u) h k = refl
text_lt_trans (String.◌∷◌ c s) (String.◌∷◌ d t) (String.◌∷◌ e u) h k =
    ground (arith, text_lt_trans s t u)

-- What is not below `t` is not below the winner.
pick_winner-below :
    (x t : String) (ids : List String) → text_lt x t ≡ false → text_lt x (pick_winner t ids) ≡ false
unfolding pick_winner
pick_winner-below x t [] h = h
pick_winner-below x t (u ∷ ids) h = elim (Bool-cases (text_lt u t)) [
  | inl k ↦ rw (k, pick_winner) (pick_winner-below x u ids (ground (arith, text_lt_trans x u t)))
  | inr k ↦ rw (k, pick_winner) (pick_winner-below x t ids h)
]

pick_winner-least :
    (x t : String) (ids : List String)
    → mem x (t ∷ ids) ≡ true
    → text_lt x (pick_winner t ids) ≡ false
unfolding mem pick_winner
pick_winner-least x t [] h =
    let e : t ≡ x = (eq_iff t x).0 (ground arith) in rw e (text_lt_irrefl x)
pick_winner-least x t (u ∷ ids) h = elim (Bool-cases (text_lt u t)) [
  | inl k ↦
      rw (k, pick_winner)
        (elim (Bool-cases (str_eq t x)) [
          | inl e ↦
              let e' : t ≡ x = (eq_iff t x).0 e in
              rw (← e')
                (pick_winner-below t u ids (ground (arith, text_lt_trans t u t, text_lt_irrefl t)))
          | inr e ↦ pick_winner-least x u ids (ground arith)
        ])
  | inr k ↦
      rw (k, pick_winner)
        (elim (Bool-cases (str_eq u x)) [
          | inl e ↦ let e' : u ≡ x = (eq_iff u x).0 e in rw (← e') (pick_winner-below u t ids k)
          | inr e ↦ pick_winner-least x t ids (ground arith)
        ])
]

pick_winner-lower :
    (t u : String) (ids : List String)
    → text_lt u t ≡ true
    → pick_winner t (u ∷ ids) ≡ pick_winner u ids
unfolding pick_winner
pick_winner-lower t u ids k = rw k refl

pick_winner-kept :
    (t u : String) (ids : List String)
    → text_lt u t ≡ false
    → pick_winner t (u ∷ ids) ≡ pick_winner t ids
unfolding pick_winner
pick_winner-kept t u ids k = rw k refl

mem-later : (w t : String) (ids : List String) → mem w ids ≡ true → mem w (t ∷ ids) ≡ true
unfolding mem
mem-later w t ids h = ground arith

mem-between :
    (w t u : String) (ids : List String) → mem w (t ∷ ids) ≡ true → mem w (t ∷ u ∷ ids) ≡ true
unfolding mem
mem-between w t u ids h = ground arith

pick_winner-mem : (t : String) (ids : List String) → mem (pick_winner t ids) (t ∷ ids) ≡ true
pick_winner-mem t [] = unfold pick_winner mem in ground (arith, eq_iff t t)
pick_winner-mem t (u ∷ ids) = elim (Bool-cases (text_lt u t)) [
  | inl k ↦
      rw (pick_winner-lower t u ids k)
        (mem-later (pick_winner u ids) t (u ∷ ids) (pick_winner-mem u ids))
  | inr k ↦
      rw (pick_winner-kept t u ids k)
        (mem-between (pick_winner t ids) t u ids (pick_winner-mem t ids))
]

-- The thread that the others are merged into is one of them, and none of them is below it: so it does
-- not depend on the order in which the map hands them out.
pub pick_winner_is_least :
    (t : String) (ids : List String)
    → (mem (pick_winner t ids) (t ∷ ids) ≡ true)
      × ((x : String) → mem x (t ∷ ids) ≡ true → text_lt x (pick_winner t ids) ≡ false)
pick_winner_is_least t ids = (pick_winner-mem t ids, λ x h. pick_winner-least x t ids h)

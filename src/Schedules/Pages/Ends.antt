-- ===== src/Schedules/Pages/Ends.antt =====
-- The loop over the pages ends, whatever the server does with its finitely many cursors.
use tay.Prelude.{
  ℕ, zero, suc, ◌+◌, ◌≤◌, ◌<◌, ◌≡◌, refl, true, false, Option, none, some, List, [], ◌∷◌, arith,
  length, if◌then◌else◌, Bool-cases, Option-cases, inl, inr,
}
use tay.Prelude.Outcome.{Outcome, ok, err, Outcome-cases}
use tay.Text.{Text, codes, mem, same, text_le}
use tay.Text.Laws.{same_iff, text_le_refl, text_le_trans, text_le_total}
use tay.Value.{Value, null, str, Items, nil, Fields, get}
use tay.Schedules.Pages.{page, pages, next_of, payload_of, schedules, not_after}

-- How many of the cursors come after this one.
above : Option Text → List Text → ℕ
above cursor [] = 0
above cursor (c ∷ cs) = (if not_after c cursor then 0 else 1) + above cursor cs

above-le-length : (o : Option Text) (cs : List Text) → above o cs ≤ length cs
unfolding above
above-le-length o [] = omega arith
above-le-length o (c ∷ cs) = ground (arith, above-le-length o cs)

not_after_mono :
    (t c : Text) (o : Option Text)
    → not_after t o ≡ false
    → not_after c o ≡ true
    → text_le c t ≡ true
not_after_mono t c none h k = cc
not_after_mono t c (some d) h k = text_le_trans c d t k (text_le_total t d h)

above_mono :
    (t : Text) (o : Option Text) (cs : List Text)
    → not_after t o ≡ false
    → above (some t) cs ≤ above o cs
unfolding above
above_mono t o [] h = omega arith
above_mono t o (c ∷ cs) h = ground (arith, above_mono t o cs h, not_after_mono t c o h)

-- Going on to a later cursor of the list leaves fewer.
above-lt :
    (t : Text) (o : Option Text) (cs : List Text)
    → not_after t o ≡ false
    → mem t cs ≡ true
    → above (some t) cs < above o cs
unfolding above mem
above-lt t o [] h m = cc
above-lt t o (c ∷ cs) h m = elim (Bool-cases (same t c)) [
  | inl e ↦ ground (arith, same_iff t c, above_mono t o cs h, text_le_refl t)
  | inr e ↦ ground (arith, above-lt t o cs h, not_after_mono t c o h)
]

module _ {S : Type 0} (request : Text → Fields → S → Outcome Fields × S) (cs : List Text) where
  -- Every cursor that the server returns is one of the list.
  pub record ServesFrom : Type 0 where
    pub cursors :
        (payload : Fields) (s : S) (reply : Fields) (t : Text)
        → (request (codes "schedules") payload s).0 ≡ ok reply
        → get (codes "next_cursor") reply ≡ str t
        → mem t cs ≡ true

  next-later :
      (o : Option Text) (v : Value) (t : Text)
      → next_of o v ≡ ok (some t)
      → (v ≡ str t) × (not_after t o ≡ false)
  unfolding next_of
  next-later o (str s) t h = ground arith
  next-later o null t h = cc
  next-later o _ t h = cc

  page-later :
      (o : Option Text) (collected vs : Items) (r : Outcome Fields) (t : Text)
      → page request o collected r ≡ ok (vs, some t)
      → (reply : Fields) × (r ≡ ok reply)
        × (get (codes "next_cursor") reply ≡ str t)
        × (not_after t o ≡ false)
  unfolding page
  page-later o collected vs (err e) t h = cc
  page-later o collected vs (ok reply) t h =
      let n : next_of o (get (codes "next_cursor") reply) ≡ ok (some t) = ground arith in
      let (e, later) = next-later o (get (codes "next_cursor") reply) t n in (reply, refl, e, later)

  pages_total :
      (serves : ServesFrom) (fuel : ℕ) (o : Option Text) (collected : Items) (s : S)
      → above o cs < fuel
      → (r : Outcome Items × S) × (pages request fuel o collected s ≡ some r)
  unfolding pages
  pages_total serves zero o collected s h = elim h [ ]
  pages_total serves (suc fuel) o collected s h =
      let reply = (request (codes "schedules") (payload_of o) s).0 in
      let after = (request (codes "schedules") (payload_of o) s).1 in
      elim (Outcome-cases (page request o collected reply)) [
        | inr (e, p) ↦ ((err e, after), rw (p, pages) refl)
        | inl ((vs, next), p) ↦ elim (Option-cases next) [
          | inl q ↦ ((ok vs, after), rw (p, q, pages) refl)
          | inr (t, q) ↦
              let (found, re, ne, later) = page-later o collected vs reply t (rw q at p) in
              let m = serves.cursors (payload_of o) s found t re ne in
              let (r, rest) =
                pages_total serves fuel (some t) vs after
                  (omega (arith, above-lt t o cs later m)) in
              (r, rw (p, q, pages) rest)
        ]
      ]

  -- If every cursor that the server returns is one of a finite list, fetching the pages ends after at
  -- most one request more than the list has cursors, with the schedules or with an error.
  pub schedules_total :
      (serves : ServesFrom) (s : S)
      → (r : Outcome Items × S) × (schedules request (suc (length cs)) s ≡ some r)
  unfolding schedules
  schedules_total serves s =
      pages_total serves (suc (length cs)) none nil s (omega (arith, above-le-length none cs))

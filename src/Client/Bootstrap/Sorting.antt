-- ===== src/Client/Bootstrap/Sorting.antt =====
-- Sorting texts, and dicts by their keys.
use tay.Prelude.{
  suc, ◌≡◌, refl, ap, ◌∙◌, Bool, true, false, ◌&&◌, ◌||◌, some, List, [], ◌∷◌, arith, length,
  if◌then◌else◌,
}
use tay.Text.{Text, mem, same, text_le}
use tay.Text.Laws.{same_iff, same_sym, text_le_refl, text_le_total}
use tay.Value.{Fields}
use tay.Table.{Table, find, keys}
use tay.Table.Laws.{nodup}
use tay.Client.Bootstrap.{insert_text, sort_texts, insert_entry, sort_entries}

-- In the order of code points.
unfoldable pub ascending : List Text → Bool
ascending [] = true
ascending (s ∷ []) = true
ascending (s ∷ t ∷ ts) = text_le s t && ascending (t ∷ ts)

ascending-insert_text :
    (t : Text) (ss : List Text) → ascending ss ≡ true → ascending (insert_text t ss) ≡ true
unfolding ascending insert_text
ascending-insert_text t [] h = refl
ascending-insert_text t (s ∷ []) h = ground (arith, text_le_total t s)
ascending-insert_text t (s ∷ r ∷ ss) h =
    ground (arith, text_le_total t s, text_le_total t r, ascending-insert_text t (r ∷ ss))

pub ascending-sort_texts : (ts : List Text) → ascending (sort_texts ts) ≡ true
unfolding sort_texts ascending
ascending-sort_texts [] = refl
ascending-sort_texts (t ∷ ts) = ascending-insert_text t (sort_texts ts) (ascending-sort_texts ts)

keys-insert_entry :
    (t : Text) (fs : Fields) (d : Table Fields)
    → keys (insert_entry t fs d) ≡ insert_text t (keys d)
unfolding keys insert_entry insert_text
keys-insert_entry t fs [] = refl
keys-insert_entry t fs ((s, gs) ∷ d) = ground (arith, keys-insert_entry t fs d)

pub keys-sort_entries : (d : Table Fields) → keys (sort_entries d) ≡ sort_texts (keys d)
unfolding keys sort_entries sort_texts
keys-sort_entries [] = refl
keys-sort_entries ((t, fs) ∷ d) =
    keys-insert_entry t fs (sort_entries d) ∙ ap (insert_text t) (keys-sort_entries d)

find-insert_entry :
    (s t : Text) (fs : Fields) (d : Table Fields)
    → find s (insert_entry t fs d) ≡ (if same s t then some fs else find s d)
unfolding find insert_entry
find-insert_entry s t fs [] = refl
find-insert_entry s t fs ((r, gs) ∷ d) =
    ground (arith, find-insert_entry s t fs d, same_iff s t, same_iff s r, text_le_refl t)

pub find-sort_entries : (s : Text) (d : Table Fields) → find s (sort_entries d) ≡ find s d
unfolding find sort_entries
find-sort_entries s [] = refl
find-sort_entries s ((t, fs) ∷ d) =
    ground (arith, find-insert_entry s t fs (sort_entries d), find-sort_entries s d)

mem-insert_text : (s t : Text) (ts : List Text) → mem s (insert_text t ts) ≡ (same s t || mem s ts)
unfolding mem insert_text
mem-insert_text s t [] = refl
mem-insert_text s t (r ∷ ts) = ground (arith, mem-insert_text s t ts)

pub mem-sort_texts : (s : Text) (ts : List Text) → mem s (sort_texts ts) ≡ mem s ts
unfolding mem sort_texts
mem-sort_texts s [] = refl
mem-sort_texts s (t ∷ ts) = ground (arith, mem-insert_text s t (sort_texts ts), mem-sort_texts s ts)

nodup-insert_text :
    (t : Text) (ts : List Text)
    → mem t ts ≡ false
    → nodup ts ≡ true
    → nodup (insert_text t ts) ≡ true
unfolding nodup insert_text mem
nodup-insert_text t [] m n = refl
nodup-insert_text t (s ∷ ts) m n =
    ground (arith, nodup-insert_text t ts, mem-insert_text s t ts, same_sym s t)

pub nodup-sort_texts : (ts : List Text) → nodup ts ≡ true → nodup (sort_texts ts) ≡ true
unfolding nodup sort_texts
nodup-sort_texts [] n = refl
nodup-sort_texts (t ∷ ts) n =
    ground (arith, nodup-insert_text t (sort_texts ts), mem-sort_texts t ts, nodup-sort_texts ts)

length-insert_text : (t : Text) (ts : List Text) → length (insert_text t ts) ≡ suc (length ts)
unfolding insert_text
length-insert_text t [] = refl
length-insert_text t (s ∷ ts) = ground (arith, length-insert_text t ts)

pub length-sort_texts : (ts : List Text) → length (sort_texts ts) ≡ length ts
unfolding sort_texts
length-sort_texts [] = refl
length-sort_texts (t ∷ ts) =
    ground (arith, length-insert_text t (sort_texts ts), length-sort_texts ts)

-- ===== src/Extract/Pool/Laws.antt =====
-- Writes that do not touch one another change places: a write and the jobs in the other channels.
use kernelbuild_buildkit.Common.{
  ℕ, zero, suc, List, [], ◌∷◌, ◌++◌, ◌≡◌, refl, ap, sym, ◌∙◌, arith, Option, none, some, All,
  length, fun_ext, ◌<◌, subst,
}
use kernelbuild_buildkit.Extract.{WriteJob}
use kernelbuild_buildkit.Extract.Disk.{◌and_then◌, and_then_assoc, and_then-some, and_then-eq-some}
use kernelbuild_buildkit.Extract.Pool.{Channels, push, pop, behind}

-- Two changes that come to the same in either order, a failure included.
abbrev pub Commute : {S : Type 0} → (S → Option S) → (S → Option S) → S → Type 0
Commute f g s = (f s and_then g) ≡ (g s and_then f)

pub behind-eq-some :
    (q : List WriteJob) (o : Option (WriteJob × Channels)) {j : WriteJob} {qs : Channels}
    → behind q o ≡ some (j, qs)
    → (rest : Channels) × (o ≡ some (j, rest)) × (qs ≡ q ∷ rest)
behind-eq-some q none e = cc
behind-eq-some q (some (k, rest)) e = (rest, cc, cc)

module _ {S : Type 0} (save : WriteJob → S → Option S) (Fine : S → Type 0) where
  abbrev pub writes : List WriteJob → S → Option S
  writes [] s = some s
  writes (j ∷ js) s = save j s and_then writes js

  -- The channels written out one after the other.
  abbrev pub drain : Channels → S → Option S
  drain [] s = some s
  drain (q ∷ qs) s = writes q s and_then drain qs

  -- A change commutes with a job, which keeps the state fine.
  pub record Passes (f : S → Option S) (j : WriteJob) : Type 0 where
    pub commute : (s : S) → Fine s → Commute f (save j) s
    pub keeps : (s t : S) → Fine s → save j s ≡ some t → Fine t

  abbrev pub KeepsFine : (S → Option S) → Type 0
  KeepsFine g = (s t : S) → Fine s → g s ≡ some t → Fine t

  -- A change commutes with what is put together from two that it commutes with.
  Commute-and_then :
      (f g h : S → Option S) (s : S)
      → Commute f g s
      → ((t : S) → g s ≡ some t → Commute f h t)
      → (f s and_then λ t. (g t and_then h)) ≡ ((g s and_then h) and_then f)
  Commute-and_then f g h s c k =
      sym (and_then_assoc (f s) g h) ∙ ap (λ o. o and_then h) c ∙ by_first (g s) refl
    where
      by_first :
          (o : Option S) → g s ≡ o → ((o and_then f) and_then h) ≡ ((o and_then h) and_then f)
      by_first none e = refl
      by_first (some t) e = k t e

  writes-keeps : (js : List WriteJob) → All (λ j. KeepsFine (save j)) js → KeepsFine (writes js)
  writes-keeps [] h s t fine e = subst Fine (cc) fine
  writes-keeps (j ∷ js) (h, hs) s t fine e =
      let (u, e₁, e₂) = and_then-eq-some (save j s) (writes js) e in
      writes-keeps js hs u t (h s u fine e₁) e₂

  Passes-keeps :
      (f : S → Option S) (js : List WriteJob) → All (Passes f) js → All (λ j. KeepsFine (save j)) js
  Passes-keeps f [] h = tt
  Passes-keeps f (j ∷ js) (h, hs) = (h.keeps, Passes-keeps f js hs)

  pub writes-Commute :
      (f : S → Option S) (js : List WriteJob)
      → All (Passes f) js
      → (s : S) → Fine s
      → Commute f (writes js) s
  writes-Commute f [] h s fine = and_then-some (f s)
  writes-Commute f (j ∷ js) (h, hs) s fine =
      Commute-and_then f (save j) (writes js) s (h.commute s fine)
        (λ t e. writes-Commute f js hs t (h.keeps s t fine e))

  pub drain-Commute :
      (f : S → Option S) (qs : Channels)
      → All (All (Passes f)) qs
      → (s : S) → Fine s
      → Commute f (drain qs) s
  drain-Commute f [] h s fine = and_then-some (f s)
  drain-Commute f (q ∷ qs) (h, hs) s fine =
      Commute-and_then f (writes q) (drain qs) s (writes-Commute f q h s fine)
        (λ t e. drain-Commute f qs hs t (writes-keeps q (Passes-keeps f q h) s t fine e))

  -- What holds of the jobs of all channels but one.
  abbrev pub AllBut : (WriteJob → Type 0) → ℕ → Channels → Type 0
  AllBut P i [] = Unit
  AllBut P zero (q ∷ qs) = All (All P) qs
  AllBut P (suc i) (q ∷ qs) = All P q × AllBut P i qs

  writes-snoc :
      (js : List WriteJob) (j : WriteJob) (s : S)
      → writes (js ++ (j ∷ [])) s ≡ (writes js s and_then save j)
  writes-snoc [] j s = and_then-some (save j s)
  writes-snoc (k ∷ js) j s =
      ap (λ (g : S → Option S). save k s and_then g) (fun_ext (writes-snoc js j))
      ∙ sym (and_then_assoc (save k s) (writes js) (save j))

  -- A job at the end of its channel is written last of all.
  pub drain-push :
      (i : ℕ) (j : WriteJob) (qs : Channels)
      → i < length qs
      → All (All (λ k. KeepsFine (save k))) qs
      → AllBut (Passes (save j)) i qs
      → (s : S) → Fine s
      → drain (push i j qs) s ≡ (drain qs s and_then save j)
  drain-push i j [] lt k h s fine = absurd (omega arith)
  drain-push zero j (q ∷ qs) lt (k, ks) h s fine =
      ap (λ o. o and_then drain qs) (writes-snoc q j s) ∙ by_first (writes q s) refl
    where
      by_first :
          (o : Option S)
          → writes q s ≡ o
          → ((o and_then save j) and_then drain qs) ≡ ((o and_then drain qs) and_then save j)
      by_first none e = refl
      by_first (some t) e = drain-Commute (save j) qs h t (writes-keeps q k s t fine e)
  drain-push (suc i) j (q ∷ qs) lt (k, ks) (h, hs) s fine =
      by_first (λ t e. drain-push i j qs (omega arith) ks hs t (writes-keeps q k s t fine e))
        (writes q s) refl
    where
      by_first :
          ((t : S) → writes q s ≡ some t → drain (push i j qs) t ≡ (drain qs t and_then save j))
          → (o : Option S) → writes q s ≡ o
          → (o and_then drain (push i j qs)) ≡ ((o and_then drain qs) and_then save j)
      by_first ih none e = refl
      by_first ih (some t) e = ih t e

  -- The head of a channel may be written first of all.
  pub drain-pop :
      (i : ℕ) (qs rest : Channels) (j : WriteJob)
      → pop i qs ≡ some (j, rest)
      → AllBut (Passes (save j)) i qs
      → (s : S) → Fine s
      → drain qs s ≡ (save j s and_then drain rest)
  drain-pop i [] rest j e h s fine = cc
  drain-pop zero ([] ∷ qs) rest j e h s fine = cc
  drain-pop zero ((k ∷ q) ∷ qs) rest j e h s fine =
      let e₁ : k ≡ j = cc in
      let e₂ : q ∷ qs ≡ rest = cc in
      rw (← e₁, ← e₂) (and_then_assoc (save k s) (writes q) (drain qs))
  drain-pop (suc i) (q ∷ qs) rest j e (h, hs) s fine =
      let (r, e₁, e₂) = behind-eq-some q (pop i qs) e in
      rw e₂ (
        by_first r
          (λ t e.
            drain-pop i qs r j e₁ hs t (writes-keeps q (Passes-keeps (save j) q h) s t fine e))
          (writes q s) refl
        ∙ (ap (λ o. o and_then drain r) (sym (writes-Commute (save j) q h s fine))
            ∙ and_then_assoc (save j s) (writes q) (drain r)))
    where
      by_first :
          (r : Channels)
          → ((t : S) → writes q s ≡ some t → drain qs t ≡ (save j t and_then drain r))
          → (o : Option S) → writes q s ≡ o
          → (o and_then drain qs) ≡ ((o and_then save j) and_then drain r)
      by_first r ih none e = refl
      by_first r ih (some t) e = ih t e

-- ===== src/Contract/Plan/Sort.antt =====
-- pkg/contract/workflow.go: which ids and steps a list holds, behind the sort and the marks.
use mathlib.Core.List.{Perm}
use mathlib.Core.List.Perm
use mathlib.Core.Path.{subst}
use atenea.Prelude.Str.{Str, str_eq, str_lt, str_eq_iff, str_eq_refl}
use atenea.Prelude.{
  ◌≡◌, refl, inl, inr, Bool, true, ◌||◌, List, [], ◌∷◌, keep, In, Bool-cases, if-both,
  if◌then◌else◌, arith,
}
use atenea.Contract.Implementation.{contains}
use atenea.Contract.Plan.{Step, step_ids, mark, mark_all, insert_step, sort_steps}

pub In-contains : (s : Step) (l : List Step) → In s l → contains s.id (step_ids l) ≡ true
In-contains s [] m = absurd m
In-contains s (t ∷ l) (inl e) = rw (e, str_eq_refl t.id) refl
In-contains s (t ∷ l) (inr m) = ground (arith, In-contains s l m)

pub contains-In :
    (id : Str) (l : List Step) → contains id (step_ids l) ≡ true → (s : Step) × In s l × (s.id ≡ id)
contains-In id [] h = absurd (cc)
contains-In id (t ∷ l) h = elim (Bool-cases (str_eq t.id id)) [
  | inl e ↦ (t, inl refl, (str_eq_iff t.id id).0 e)
  | inr e ↦ let (s, m, same) = contains-In id l (ground (arith, e, h)) in (s, inr m, same)
]

pub In-keep : (p : Step → Bool) (s : Step) (l : List Step) → In s l → p s ≡ true → In s (keep p l)
In-keep p s [] m h = absurd m
In-keep p s (t ∷ l) (inl e) h = rw (← e, h) (inl refl)
In-keep p s (t ∷ l) (inr m) h =
    if-both (In s) (p t) _ _ (λ b. inr (In-keep p s l m h)) (λ b. In-keep p s l m h)

pub keep-In : (p : Step → Bool) (s : Step) (l : List Step) → In s (keep p l) → In s l × (p s ≡ true)
keep-In p s [] m = absurd m
keep-In p s (t ∷ l) m = elim (Bool-cases (p t)) [
  | inl e ↦ elim (subst (λ b. In s (if b then t ∷ keep p l else keep p l)) e m) [
    | inl same ↦ (inl same, rw same e)
    | inr later ↦ let (i, h) = keep-In p s l later in (inr i, h)
  ]
  | inr e ↦
      let (i, h) = keep-In p s l (subst (λ b. In s (if b then t ∷ keep p l else keep p l)) e m) in
      (inr i, h)
]

insert_step-perm : (s : Step) (l : List Step) → Perm (insert_step s l) (s ∷ l)
unfolding insert_step
insert_step-perm s [] = Perm.refl (s ∷ [])
insert_step-perm s (t ∷ l) =
    if-both (λ x. Perm x (s ∷ t ∷ l)) (str_lt t.id s.id) _ _
      (λ e. Perm.trans (Perm.cons t (insert_step-perm s l)) (Perm.swap s t l))
      (λ e. Perm.refl (s ∷ t ∷ l))

pub sort_steps-perm : (l : List Step) → Perm (sort_steps l) l
unfolding sort_steps
sort_steps-perm [] = Perm.refl []
sort_steps-perm (s ∷ l) =
    Perm.trans (insert_step-perm s (sort_steps l)) (Perm.cons s (sort_steps-perm l))

insert_step-In : (a s : Step) (l : List Step) → In a (insert_step s l) → In a (s ∷ l)
unfolding insert_step
insert_step-In a s [] m = m
insert_step-In a s (t ∷ l) m = elim (Bool-cases (str_lt t.id s.id)) [
  | inl e ↦ elim (subst (λ b. In a (if b then t ∷ insert_step s l else s ∷ t ∷ l)) e m) [
    | inl first ↦ inr (inl first)
    | inr later ↦ elim (insert_step-In a s l later) [ inl new ↦ inl new | inr old ↦ inr (inr old) ]
  ]
  | inr e ↦ subst (λ b. In a (if b then t ∷ insert_step s l else s ∷ t ∷ l)) e m
]

pub sort_steps-In : (a : Step) (l : List Step) → In a (sort_steps l) → In a l
unfolding sort_steps
sort_steps-In a [] m = m
sort_steps-In a (s ∷ l) m = elim (insert_step-In a s (sort_steps l) m) [
  | inl first ↦ inl first
  | inr later ↦ inr (sort_steps-In a l later)
]

contains-insert_step :
    (id : Str) (s : Step) (l : List Step)
    → contains id (step_ids (insert_step s l)) ≡ contains id (step_ids (s ∷ l))
unfolding insert_step
contains-insert_step id s [] = refl
contains-insert_step id s (t ∷ l) = ground (arith, contains-insert_step id s l)

pub contains-sort_steps :
    (id : Str) (l : List Step) → contains id (step_ids (sort_steps l)) ≡ contains id (step_ids l)
unfolding sort_steps
contains-sort_steps id [] = refl
contains-sort_steps id (s ∷ l) =
    ground (arith, contains-insert_step id s (sort_steps l), contains-sort_steps id l)

contains-mark :
    (k id : Str) (done : List Str) → contains k (mark id done) ≡ (str_eq id k || contains k done)
contains-mark k id done = elim (Bool-cases (str_eq id k)) [
  | inl e ↦ ground (arith, (str_eq_iff id k).0 e, str_eq_refl k)
  | inr e ↦ ground arith
]

pub contains-mark_all :
    (k : Str) (ids done : List Str)
    → contains k (mark_all ids done) ≡ (contains k ids || contains k done)
unfolding mark_all
contains-mark_all k [] done = refl
contains-mark_all k (id ∷ ids) done =
    ground (arith, contains-mark_all k ids (mark id done), contains-mark k id done)

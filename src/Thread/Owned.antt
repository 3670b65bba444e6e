-- ===== src/Thread/Owned.antt =====
-- src/thread.cpp: which Thread object owns which Impl.
use hfts.Base.{
  ℕ, suc, ◌<◌, ◌≡◌, ◌≢◌, ◌⊎◌, refl, true, false, Option, none, some, List, [], ◌∷◌, ◌==◌, update,
  arith, Bool-cases, Option-cases, inl, inr, ◌∙◌, sym, ap, subst, ==_refl, ==_ne,
}
use hfts.Thread.{
  joinable, deleted, Threads, no_threads, create, join, move_construct, move_assign, Op, creates,
  joins, constructs, assigns, run_op, run,
}

-- Each Impl that an object points to can be joined, and no other object points to it.
pub record IsOwned (t : Threads) : Type 0 where
  pub below : (h i : ℕ) → t.impl h ≡ some i → i < t.made
  pub alive : (h i : ℕ) → t.impl h ≡ some i → t.life i ≡ joinable
  pub alone : (h k i : ℕ) → t.impl h ≡ some i → t.impl k ≡ some i → h ≡ k

no_threads-IsOwned : IsOwned no_threads
unfolding no_threads
no_threads-IsOwned = record {
  below = λ h i e. absurd (cc (e));
  alive = λ h i e. absurd (cc (e));
  alone = λ h k i e f. absurd (cc (e));
}

created :
    (h k i : ℕ) (t : Threads)
    → (create h t).impl k ≡ some i
    → ((k ≡ h) × (i ≡ t.made)) ⊎ (t.impl k ≡ some i)
unfolding create
created h k i t e = elim (Bool-cases (k == h)) [
  | inl y ↦
      (let same : some t.made ≡ some i = (rw y at e) in inl (ground arith, ground (arith, same)))
  | inr n ↦ inr (rw n at e)
]

create-life : (h i : ℕ) (t : Threads) → i ≢ t.made → (create h t).life i ≡ t.life i
unfolding create
create-life h i t n = rw (==_ne i t.made n) refl

create-new : (h : ℕ) (t : Threads) → (create h t).life t.made ≡ joinable
unfolding create
create-new h t = rw (==_refl t.made) refl

create-made : (h : ℕ) (t : Threads) → (create h t).made ≡ suc t.made
unfolding create
create-made h t = refl

create-IsOwned : (h : ℕ) (t : Threads) → IsOwned t → IsOwned (create h t)
create-IsOwned h t v = record {
  below = λ k i e. elim (created h k i t e) [
    | inl (_, x) ↦ omega (arith, x, create-made h t)
    | inr old ↦ omega (arith, v.below k i old, create-made h t)
  ];
  alive = λ k i e. elim (created h k i t e) [
    | inl (_, x) ↦ subst (λ j. (create h t).life j ≡ joinable) (sym x) (create-new h t)
    | inr old ↦ create-life h i t (λ x. omega (arith, x, v.below k i old)) ∙ v.alive k i old
  ];
  alone = λ k l i e f. elim (created h k i t e) [
    | inl (x, y) ↦ elim (created h l i t f) [
      | inl (z, _) ↦ x ∙ sym z
      | inr old ↦ absurd (omega (arith, y, v.below l i old))
    ]
    | inr old ↦ elim (created h l i t f) [
      | inl (_, y) ↦ absurd (omega (arith, y, v.below k i old))
      | inr older ↦ v.alone k l i old older
    ]
  ];
}

-- After a move each object but `to` points where it pointed, or nowhere, and `to` where `from` did.
move_cases :
    (to from k i : ℕ) (t : Threads)
    → (move_construct to from t).impl k ≡ some i
    → ((k == from) ≡ false)
      × ((((k == to) ≡ true) × (t.impl from ≡ some i))
          ⊎ (((k == to) ≡ false) × (t.impl k ≡ some i)))
unfolding move_construct
move_cases to from k i t e = elim (Bool-cases (k == from)) [
  | inl y ↦ (let gone : none ≡ some i = (rw y at e) in absurd (cc (gone)))
  | inr n ↦ (
    n,
    elim (Bool-cases (k == to)) [
      | inl y ↦ inl (y, rw y at (rw n at e))
      | inr m ↦ inr (m, rw m at (rw n at e))
    ],
  )
]

move_construct-IsOwned :
    (to from : ℕ) (t : Threads) → IsOwned t → IsOwned (move_construct to from t)
unfolding move_construct
move_construct-IsOwned to from t v = record {
  below = λ k i e. elim (move_cases to from k i t e).1 [
    | inl (_, old) ↦ v.below from i old
    | inr (_, old) ↦ v.below k i old
  ];
  alive = λ k i e. elim (move_cases to from k i t e).1 [
    | inl (_, old) ↦ v.alive from i old
    | inr (_, old) ↦ v.alive k i old
  ];
  alone = λ k l i e f.
      let (nk, ck) = move_cases to from k i t e in
      let (nl, cl) = move_cases to from l i t f in
      elim ck [
        | inl (x, old) ↦ elim cl [
          | inl (y, _) ↦ ground (arith, x, y)
          | inr (_, older) ↦
              (let same = v.alone from l i old older in absurd (ground (arith, same, nl)))
        ]
        | inr (_, old) ↦ elim cl [
          | inl (_, older) ↦
              (let same = v.alone from k i older old in absurd (ground (arith, same, nk)))
          | inr (_, older) ↦ v.alone k l i old older
        ]
      ];
}

-- A join succeeds for each object that points to an Impl, and deletes that.
join_owned :
    (h i : ℕ) (t : Threads)
    → t.impl h ≡ some i
    → t.life i ≡ joinable
    → join h t ≡ some (record t { impl = update t.impl h none; life = update t.life i deleted })
unfolding join
join_owned h i t e l = rw (e, join) (rw (l) refl)

joined : ℕ → ℕ → Threads → Threads
joined h i t = record t { impl = update t.impl h none; life = update t.life i deleted }

joined_cases :
    (h i k j : ℕ) (t : Threads)
    → (joined h i t).impl k ≡ some j
    → ((k == h) ≡ false) × (t.impl k ≡ some j)
unfolding joined
joined_cases h i k j t e = elim (Bool-cases (k == h)) [
  | inl y ↦ (let gone : none ≡ some j = (rw y at e) in absurd (cc (gone)))
  | inr n ↦ (n, rw n at e)
]

joined-IsOwned : (h i : ℕ) (t : Threads) → t.impl h ≡ some i → IsOwned t → IsOwned (joined h i t)
unfolding joined
joined-IsOwned h i t own v = record {
  below = λ k j e. v.below k j (joined_cases h i k j t e).1;
  alive = λ k j e.
      let (n, old) = joined_cases h i k j t e in
      let other : (j == i) ≡ false = ==_ne j i (λ same.
        absurd (ground (arith, v.alone k h i (subst (λ x. t.impl k ≡ some x) same old) own, n))) in
      rw other (v.alive k j old);
  alone = λ k l j e f. v.alone k l j (joined_cases h i k j t e).1 (joined_cases h i l j t f).1;
}

join-IsOwned : (h : ℕ) (t u : Threads) → IsOwned t → join h t ≡ some u → IsOwned u
unfolding join joined
join-IsOwned h t u v ran = elim (Option-cases (t.impl h)) [
  | inl e ↦ (let gone : none ≡ some u = (rw (e, join) at ran) in absurd (cc (gone)))
  | inr (i, e) ↦
      let same : some (joined h i t) ≡ some u = sym (join_owned h i t e (v.alive h i e)) ∙ ran in
      subst IsOwned (ground (arith, same)) (joined-IsOwned h i t e v)
]

move_assign-IsOwned :
    (to from : ℕ) (t u : Threads) → IsOwned t → move_assign to from t ≡ some u → IsOwned u
unfolding move_assign
move_assign-IsOwned to from t u v ran = elim (Option-cases (t.impl to)) [
  | inr (i, e) ↦ (let gone : none ≡ some u = (rw (e, move_assign) at ran) in absurd (cc (gone)))
  | inl e ↦
      let same : some (move_construct to from t) ≡ some u =
        sym (
          ap (λ (o : Option ℕ). elim o [ some i ↦ none | none ↦ some (move_construct to from t) ])
            e)
        ∙ ran in
      subst IsOwned (ground (arith, same)) (move_construct-IsOwned to from t v)
]

run_op-IsOwned : (op : Op) (t u : Threads) → IsOwned t → run_op op t ≡ some u → IsOwned u
unfolding run_op
run_op-IsOwned (creates h) t u v ran = subst IsOwned (ground (arith, ran)) (create-IsOwned h t v)
run_op-IsOwned (joins h) t u v ran = join-IsOwned h t u v ran
run_op-IsOwned (constructs to from) t u v ran =
    subst IsOwned (ground (arith, ran)) (move_construct-IsOwned to from t v)
run_op-IsOwned (assigns to from) t u v ran = move_assign-IsOwned to from t u v ran

run-IsOwned : (ops : List Op) (t u : Threads) → IsOwned t → run ops t ≡ some u → IsOwned u
unfolding run
run-IsOwned [] t u v ran = subst IsOwned (ground (arith, ran)) v
run-IsOwned (op ∷ ops) t u v ran = elim (Option-cases (run_op op t)) [
  | inl e ↦ (let gone : none ≡ some u = (rw (e, run) at ran) in absurd (cc (gone)))
  | inr (w, e) ↦ run-IsOwned ops w u (run_op-IsOwned op t w v e) (rw (e, run) at ran)
]

-- After operations on Thread objects none of which ends the program, an Impl that an object points
-- to has no other owner. Joining the object succeeds, deletes that Impl, leaves the object empty,
-- and leaves every Impl that any object points to joinable and with one owner.
pub run_lem :
    (ops : List Op) (t : Threads) (h i : ℕ)
    → run ops no_threads ≡ some t
    → t.impl h ≡ some i
    → ((k : ℕ) → t.impl k ≡ some i → k ≡ h)
      × ((u : Threads) × (join h t ≡ some u) × (u.impl h ≡ none) × (u.life i ≡ deleted) × IsOwned u)
unfolding joined
run_lem ops t h i ran own =
    let v = run-IsOwned ops no_threads t no_threads-IsOwned ran in
    (
      λ k e. v.alone k h i e own,
      (
        joined h i t,
        join_owned h i t own (v.alive h i own),
        rw (==_refl h) refl,
        rw (==_refl i) refl,
        joined-IsOwned h i t own v,
      ),
    )

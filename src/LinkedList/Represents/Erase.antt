-- ===== src/LinkedList/Represents/Erase.antt =====
-- include/hfts/containers.hpp: list::erase, list::emplace_front after it, and list::~list.
use hfts.Base.{
  ℕ, zero, suc, ◌≤◌, ◌<◌, ◌≡◌, refl, true, false, Option, none, some, List, [], ◌∷◌, ◌++◌, ◌==◌,
  update, arith, length, elem, elem-append, Distinct, ap, sym, ◌∙◌, subst, dec64, u64_mod,
  Bool-cases, inl, inr, ==_refl, length-append,
}
use hfts.LinkedList.{LinkedList, Nodes, link, unlink, erase, destroy_loop, destruct}
use hfts.LinkedList.Chain.{Chain, elem_ne, Distinct-middle, SameAt-Chain}
use hfts.LinkedList.Links.{Apart, unlink-Chain, unlink-Apart, link-Chain, link-Apart}
use hfts.Memory.{Allocation}
use hfts.LinkedList.Freed.{Allocated, allocations_of, free_loop_lem}
use hfts.LinkedList.Represents.{
  Owns, Represents, places, places-append, Stored, Stored-append, append-Stored, Stored-update,
  Distinct-append, append-Distinct, Apart-sym,
}

module _ {ℓ} {A : Type ℓ} where
  -- The list after the entry has been taken out.
  erased : ℕ → LinkedList A → LinkedList A
  erased e l =
      let u = unlink e l.head l.nodes in
      let k = link e l.free u.0 in
      record l {
        head = u.1;
        free = k.1;
        nodes = k.0;
        objects = update l.objects e none;
        size = dec64 l.size;
      }

  erase-eq :
      (e : ℕ) (a : A) (l : LinkedList A) → l.objects e ≡ some a → erase e l ≡ some (erased e l)
  unfolding erase erased
  erase-eq e a l h = ap (λ o. elim o [ none ↦ none | some _ ↦ some (erased e l) ]) h

  erased-capacity : (e : ℕ) (l : LinkedList A) → (erased e l).capacity ≡ l.capacity
  unfolding erased
  erased-capacity e l = refl

  erased-Owns :
      (e : ℕ) (a : A) (l : LinkedList A) (fs : List ℕ) (before after : List (ℕ × A))
      → Owns l fs (before ++ (e, a) ∷ after)
      → length (before ++ (e, a) ∷ after) < u64_mod
      → Owns (erased e l) (e ∷ fs) (before ++ after)
  unfolding erased
  erased-Owns e a l fs before after o small =
      let n = l.nodes in
      let u = unlink e l.head n in
      let pre = places before in
      let post = places after in
      let split = places-append before ((e, a) ∷ after) in
      let joined = places-append before after in
      let heads : Chain n none l.head (pre ++ e ∷ post) =
        subst (λ es. Chain n none l.head es) split o.head_chain in
      let all : Distinct (fs ++ (pre ++ e ∷ post)) =
        subst (λ es. Distinct (fs ++ es)) split o.distinct in
      let (dfs, dis, apart) = Distinct-append fs (pre ++ e ∷ post) all in
      let (out_pre, out_post, rest) = Distinct-middle pre post e dis in
      let (chain, next, prev) = unlink-Chain n pre post e l.head heads dis in
      let frees =
        SameAt-Chain n u.0 none l.free fs (unlink-Apart n pre post e l.head heads dis fs apart)
          o.free_chain in
      let k = link e l.free u.0 in
      let fresh : elem e fs ≡ false =
        Apart-sym fs (pre ++ e ∷ post) apart e (ground (arith, elem-append e pre (e ∷ post))) in
      let away : Apart (pre ++ post) (e ∷ fs) = λ f m.
        let fe =
          elem_ne f e (pre ++ post) m (ground (arith, out_pre, out_post, elem-append e pre post)) in
        let ff =
          Apart-sym fs (pre ++ e ∷ post) apart f
            (ground (arith, m, elem-append f pre post, elem-append f pre (e ∷ post))) in
        ground (arith, fe, ff) in
      let kept = Stored-append l.objects before ((e, a) ∷ after) o.stored in
      record {
        free_chain = link-Chain u.0 e l.free fs frees (fresh, dfs) next prev;
        head_chain =
            subst (λ es. Chain k.0 none u.1 es) (sym joined)
              (SameAt-Chain u.0 k.0 none u.1 (pre ++ post)
                (link-Apart u.0 e l.free fs (pre ++ post) frees away) chain);
        distinct =
            subst (λ es. Distinct ((e ∷ fs) ++ es)) (sym joined)
              (append-Distinct (e ∷ fs) (pre ++ post) (fresh, dfs) rest
                (Apart-sym (pre ++ post) (e ∷ fs) away));
        size =
            omega
              (arith, o.size, length-append before ((e, a) ∷ after), length-append before after);
        capacity =
            omega (
              arith,
              o.capacity,
              length-append before ((e, a) ∷ after),
              length-append before after,
            );
        stored =
            append-Stored (update l.objects e none) before after
              (Stored-update l.objects e none before out_pre kept.0)
              (Stored-update l.objects e none after out_post kept.1.1);
      }

  -- Erasing an entry of a list that stands for a sequence succeeds, if the capacity is below 2 ^
  -- 64. The list then stands for the sequence without the element of that entry, its capacity is as
  -- before, and the entry is the next that is free.
  pub erase-Represents :
      (e : ℕ) (a : A) (l : LinkedList A) (before after : List (ℕ × A))
      → Represents l (before ++ (e, a) ∷ after)
      → l.capacity < u64_mod
      → (l' : LinkedList A) × (erase e l ≡ some l')
        × Represents l' (before ++ after)
        × (l'.free ≡ some e)
        × (l'.capacity ≡ l.capacity)
  erase-Represents e a l before after (fs, o) small =
      let stored = Stored-append l.objects before ((e, a) ∷ after) o.stored in
      let owns = erased-Owns e a l fs before after o (omega (arith, o.capacity)) in
      (
        erased e l,
        erase-eq e a l stored.1.0,
        (e ∷ fs, owns),
        owns.free_chain.0,
        erased-capacity e l,
      )

  destroy_step :
      (fuel e : ℕ) (a : A) (n : Nodes) (objects : ℕ → Option A)
      → objects e ≡ some a
      → destroy_loop (suc fuel) (some e) n objects
        ≡ destroy_loop fuel (n.next e) n (update objects e none)
  unfolding destroy_loop
  destroy_step fuel e a n objects h =
      ap
        (λ (o : Option A). elim o [
          | none ↦ none
          | some _ ↦ destroy_loop fuel (n.next e) n (update objects e none)
        ])
        h

  destroy_loop_lem :
      (items : List (ℕ × A)) (fuel : ℕ) (n : Nodes) (before cur : Option ℕ) (objects : ℕ → Option A)
      → Chain n before cur (places items)
      → Distinct (places items)
      → Stored objects items
      → length items ≤ fuel
      → (left : ℕ → Option A) × (destroy_loop fuel cur n objects ≡ some left)
        × ((e : ℕ) → elem e (places items) ≡ true → left e ≡ none)
        × ((e : ℕ) → elem e (places items) ≡ false → left e ≡ objects e)
  unfolding destroy_loop
  destroy_loop_lem [] fuel n before none objects c d s enough =
      (objects, refl, λ e m. absurd (cc (m)), λ e m. refl)
  destroy_loop_lem [] fuel n before (some f) objects c d s enough = absurd (cc (c))
  destroy_loop_lem ((e, a) ∷ items) zero n before cur objects c d s enough = absurd (omega arith)
  destroy_loop_lem ((e, a) ∷ items) (suc fuel) n before none objects c d s enough =
      absurd (cc (c.0))
  destroy_loop_lem ((e, a) ∷ items) (suc fuel) n before (some f) objects c d s enough =
      let same : f ≡ e = ground (arith, c.0) in
      let (left, ran, gone, kept) =
        destroy_loop_lem items fuel n (some e) (n.next e) (update objects e none) c.2 d.1
          (Stored-update objects e none items d.0 s.1) (omega arith) in
      (
        left,
        rw same (destroy_step fuel e a n objects s.0 ∙ ran),
        λ g m. elim (Bool-cases (g == e)) [
          | inl y ↦
              let here : e ≡ g = ground arith in
              subst (λ x. left x ≡ none) here (kept e d.0 ∙ rw (==_refl e) refl)
          | inr y ↦ gone g (rw y at m)
        ],
        λ g m.
            let ge : (g == e) ≡ false = ground (arith, m) in
            kept g (ground (arith, m)) ∙ rw ge refl,
      )

  -- Destroying a list that stands for a sequence, and whose allocations are chained at distinct
  -- addresses, ends if each of its two loops may take as many rounds as there are elements and
  -- allocations. It destroys the object of each element once, and frees the allocations of the
  -- chain, each once and in order.
  pub destruct-Represents :
      (fuel : ℕ) (l : LinkedList A) (items : List (ℕ × A)) (chain : List (ℕ × Allocation))
      → Represents l items
      → Allocated l chain
      → length items ≤ fuel
      → length chain ≤ fuel
      → (left : ℕ → Option A) × (destruct fuel l ≡ some (left, allocations_of chain))
        × ((e : ℕ) → elem e (places items) ≡ true → left e ≡ none)
  unfolding destruct
  destruct-Represents fuel l items chain (fs, o) (held, once) enough rounds =
      let (_, dis, _) = Distinct-append fs (places items) o.distinct in
      let (left, ran, gone, _) =
        destroy_loop_lem items fuel l.nodes none l.head l.objects o.head_chain dis o.stored
          enough in
      (
        left,
        rw (ran, destruct)
            (rw (free_loop_lem chain fuel l.allocations l.chains held once rounds) refl),
        gone,
      )

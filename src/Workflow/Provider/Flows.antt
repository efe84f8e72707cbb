-- ===== src/Workflow/Provider/Flows.antt =====
-- Which flow a handle shows: the provider of in-process-workflow-provider.ts shares a flow between
-- the calls with its identifier, and no two identifiers share one.
use orijs.Common.{
  ℕ, suc, ◌<◌, ◌≡◌, refl, Option, some, String, String-discrete, arith, inl, inr, Option-cases,
  or_else,
}
use orijs.JsMap.{get, set}
use orijs.JsMap.Laws.{get-set, get-delete}
use orijs.Workflow.Flow.{Ending, Consumer, fresh_flow, begin}
use orijs.Workflow.Provider.{
  Provider, Execution, refused, joined, launched, put, register, start, stop, launch, execute, fire,
  finish, clean_up,
}

-- The events of a provider: calls of its methods, and of what it scheduled.
pub data Event (D V R E : Type 0) : Type 0 where
  registers : String → Consumer D V R E → Event D V R E
  starts stops : Event D V R E
  executes : String → Option String → Option ℕ → String → Event D V R E
  fires : ℕ → Event D V R E
  finishes : String → ℕ → Ending R E → Event D V R E
  cleans : String → Event D V R E

module _ {D V R E : Type 0} where
  -- The references of the flows were given out, and each to one identifier.
  pub record IsValid (p : Provider D V R E) : Type 0 where
    pub old : (id : String) (ref : ℕ) → get String-discrete id p.flows ≡ some ref → ref < p.next
    pub apart :
        (a b : String) (ref : ℕ)
        → get String-discrete a p.flows ≡ some ref
        → get String-discrete b p.flows ≡ some ref
        → a ≡ b

  -- The provider after a call of `execute`.
  abbrev pub after : Provider D V R E → Execution D V R E → Provider D V R E
  after p (refused r) = p
  after p (joined q ref) = q
  after p (launched q ref t) = q

  launch-IsValid :
      (id : String) (timeout : Option ℕ) (p : Provider D V R E)
      → IsValid p
      → IsValid (after p (launch id timeout p))
  unfolding launch
  launch-IsValid id timeout p v = elim (Option-cases (get String-discrete id p.flows)) [
    | inr (ref, e) ↦ rw (e, launch) v
    | inl e ↦
        rw (e, launch)
          (record {
            old = λ a ref h.
                ground (arith, get-set String-discrete a id p.next p.flows, h, v.old a ref);
            apart = λ a b ref h k. ground (
              arith,
              get-set String-discrete a id p.next p.flows,
              get-set String-discrete b id p.next p.flows,
              h,
              k,
              v.old a ref,
              v.old b ref,
              v.apart a b ref,
            );
          })
  ]

  shrink-IsValid :
      (p q : Provider D V R E)
      → ((id : String) (ref : ℕ)
          → get String-discrete id q.flows ≡ some ref
          → get String-discrete id p.flows ≡ some ref)
      → p.next ≡ q.next
      → IsValid p
      → IsValid q
  shrink-IsValid p q sub e v = record {
    old = λ id ref h. rw (← e) (v.old id ref (sub id ref h));
    apart = λ a b ref h k. v.apart a b ref (sub a ref h) (sub b ref k);
  }

  pub apply : Event D V R E → Provider D V R E → Provider D V R E
  apply (registers name c) p = register name c p
  apply starts p = start p
  apply stops p = stop p
  apply (executes name requested timeout fresh) p = after p (execute name requested timeout fresh p)
  apply (fires ref) p = fire ref p
  apply (finishes id ref end) p = finish id ref end p
  apply (cleans id) p = clean_up id p

  execute-IsValid :
      (name : String) (requested : Option String) (timeout : Option ℕ) (fresh : String)
      (p : Provider D V R E)
      → IsValid p
      → IsValid (after p (execute name requested timeout fresh p))
  unfolding execute
  execute-IsValid name requested timeout fresh p v =
      ground (arith, launch-IsValid (or_else requested fresh) timeout p v)

  -- Every event keeps the references of the provider's flows allocated, and no two identifiers ever
  -- share a flow.
  apply-IsValid : (ev : Event D V R E) (p : Provider D V R E) → IsValid p → IsValid (apply ev p)
  unfolding apply register start stop fire finish clean_up get
  apply-IsValid (registers name c) p v = shrink-IsValid p _ (λ id ref h. h) refl v
  apply-IsValid starts p v = shrink-IsValid p _ (λ id ref h. h) refl v
  apply-IsValid stops p v = record { old = λ id ref h. cc; apart = λ a b ref h k. cc }
  apply-IsValid (executes name requested timeout fresh) p v =
      execute-IsValid name requested timeout fresh p v
  apply-IsValid (fires ref) p v = shrink-IsValid p _ (λ id r h. h) refl v
  apply-IsValid (finishes id ref end) p v = shrink-IsValid p _ (λ a r h. h) refl v
  apply-IsValid (cleans id) p v =
      shrink-IsValid p _ (λ a r h. ground (arith, get-delete String-discrete a id p.flows)) refl v

  -- The provider after a launch.
  abbrev launched_provider : String → Provider D V R E → Provider D V R E
  launched_provider id p = record p {
    flows = set String-discrete id p.next p.flows;
    store = put p.store p.next (begin fresh_flow);
    next = suc p.next;
  }

-- ===== src/Orchestratord/Dispatch/ReadOnly.antt =====
-- The methods that need no signature change nothing.
use rotten_apple.Prelude.{
  Bool, Bool-cases, In, List, Option, Result, Text, [], arith, contains, err, false, if◌then◌else◌,
  inl, inr, nat_eq, none, ok, refl, some, subst, sym, text_beq, text_beq_iff, text_eq, true, ℕ, ◌∷◌,
  ◌≡◌,
}
use rotten_apple.Backend.{HypervisorBackend}
use rotten_apple.Orchestratord.Engine.{ActorError}
use rotten_apple.Orchestratord.Auth.{method_is_privileged, read_only}
use rotten_apple.Orchestratord.Actor.{
  ActorState, Machine, ActorRequest, host_info, host_resources, domain_list, domain_get, serve,
  send_and_recv, unavail, domain_infos, DomainInfo,
}
use rotten_apple.Orchestratord.Protocol.{Json, Request}
use rotten_apple.Orchestratord.Params.{Host, Fallible, parse_domid, parse_tail}
use rotten_apple.Orchestratord.Dispatch.{
  Answer, Daemon, dispatch, reply, route, call, with_params, of_host, of_resources, Outcome,
  of_domains, of_domain, tail,
}

contains-In : (m : Text) (l : List Text) → contains l m ≡ true → In m l
unfolding contains
contains-In m [] h = ground arith
contains-In m (x ∷ xs) h = elim (Bool-cases (text_beq x m)) [
  | inl e ↦ inl (sym ((text_beq_iff x m).0 e))
  | inr e ↦ inr (contains-In m xs (ground arith))
]

module _ (h : HypervisorBackend) (m : Machine h) (s : ActorState h) where
  -- A request that leaves the actor as it was.
  pub Reads : {A : Type 0} → ActorRequest h A → Type 0
  Reads request = (send_and_recv h m request s).1 ≡ s

  alive-Reads :
      {A : Type 0} (request : ActorRequest h A) → (serve h m request s).1 ≡ s → Reads request
  unfolding Reads send_and_recv
  alive-Reads request e = choose s.alive
    where
      choose :
          (alive : Bool)
          → (if alive then serve h m request s else (err ActorError.actor_crashed, s)).1 ≡ s
      choose true = e
      choose false = refl

  host_info-Reads : Reads host_info
  unfolding serve
  host_info-Reads = alive-Reads host_info refl

  host_resources-Reads : Reads host_resources
  unfolding serve
  host_resources-Reads = alive-Reads host_resources refl

  domain_list-Reads : Reads domain_list
  unfolding serve
  domain_list-Reads = alive-Reads domain_list (choose s.backend)
    where
      choose :
          (o : Option h.State)
          → ◌≡◌ {A = ActorState h}
              (elim o as (λ x. Result ActorError (List DomainInfo) × ActorState h) [
                | none ↦ (err unavail, s)
                | some b ↦ (domain_infos h b (h.list b), s)
              ]).1
              s
      choose none = refl
      choose (some b) = refl

  domain_get-Reads : (domid : ℕ) → Reads (domain_get domid)
  unfolding serve
  domain_get-Reads domid = alive-Reads (domain_get domid) refl

module _ (x : Json) (h : HypervisorBackend) (m : Machine h) (host : Host) (req : Request x)
    (s : Daemon x h) where
  reply-keeps :
      {A : Type 0} (render : A → Answer) (id : x.Value) (out : Result ActorError A × ActorState h)
      → out.1 ≡ s.actor
      → (reply x h render id s.engine out).1 ≡ s
  unfolding reply
  reply-keeps render id (ok a, actor) e = rw (e, reply) refl
  reply-keeps render id (err a, actor) e = rw (e, reply) refl

  call-keeps :
      {A : Type 0} (request : ActorRequest h A) (render : A → Answer)
      → Reads h m s.actor request
      → (call x h m host req s request render).1 ≡ s
  unfolding call Reads
  call-keeps request render e = reply-keeps render req.id (send_and_recv h m request s.actor) e

  with_params-keeps :
      {A : Type 0} (parsed : Fallible A) (next : A → Outcome x h)
      → ((a : A) → (next a).1 ≡ s)
      → (with_params x h m host req s parsed next).1 ≡ s
  unfolding with_params
  with_params-keeps (ok a) next k = k a
  with_params-keeps (err e) next k = refl

  route-keeps : (method : Text) → In method read_only → (route x h m host req s method).1 ≡ s
  unfolding route text_beq
  route-keeps method (inl e) = subst (λ t. (route x h m host req s t).1 ≡ s) (sym e) refl
  route-keeps method (inr (inl e)) =
      subst (λ t. (route x h m host req s t).1 ≡ s) (sym e)
        (call-keeps host_info of_host (host_info-Reads h m s.actor))
  route-keeps method (inr (inr (inl e))) =
      subst (λ t. (route x h m host req s t).1 ≡ s) (sym e)
        (call-keeps host_resources of_resources (host_resources-Reads h m s.actor))
  route-keeps method (inr (inr (inr (inl e)))) =
      subst (λ t. (route x h m host req s t).1 ≡ s) (sym e)
        (call-keeps domain_list of_domains (domain_list-Reads h m s.actor))
  route-keeps method (inr (inr (inr (inr (inl e))))) =
      subst (λ t. (route x h m host req s t).1 ≡ s) (sym e)
        (with_params-keeps (parse_domid x req.params)
          (λ domid. call x h m host req s (domain_get domid) of_domain)
          (λ domid. call-keeps (domain_get domid) of_domain (domain_get-Reads h m s.actor domid)))
  route-keeps method (inr (inr (inr (inr (inr (inl e)))))) =
      subst (λ t. (route x h m host req s t).1 ≡ s) (sym e) refl
  route-keeps method (inr (inr (inr (inr (inr (inr (inl e))))))) =
      subst (λ t. (route x h m host req s t).1 ≡ s) (sym e)
        (with_params-keeps (parse_tail x req.params) (tail x h m host req s) (λ p. refl))
  route-keeps method (inr (inr (inr (inr (inr (inr (inr e))))))) = elim e [ ]

  -- A method that needs no signature leaves the daemon as it was: the hypervisor, the policies and
  -- the event log.
  pub dispatch-read_only :
      method_is_privileged req.method ≡ false → (dispatch x h m host req s).1 ≡ s
  unfolding method_is_privileged dispatch
  dispatch-read_only unprivileged =
      route-keeps req.method (contains-In req.method read_only (ground arith))

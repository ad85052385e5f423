-- ===== src/Kubernetes/NetworkMode/Merge.antt =====
-- What one mapping does to the deployments.
use Prim.Native.Nat.{suc}
use kompose.Base.{
  ℕ, true, false, ◌≡◌, ◌≢◌, refl, sym, ap, ap₂, ◌∙◌, inl, inr, some, List, [], ◌∷◌, ◌++◌, map,
  filter, length-append, arith, Text, ==_iff, length, get_elem?, append_assoc, append-nil, All,
  Bool-cases, if◌then◌else◌,
}
use kompose.Kubernetes.Types.{RuntimeObject, ObjectBody, deployment, Container}
use kompose.Kubernetes.NetworkMode.{
  DeploymentMapping, is_named, body_containers, append_containers, add_containers_from,
  add_containers_from_source_to_target_deployment, merge_containers_into_destination_deployment,
  remove_deployment_transfered,
}
use kompose.Kubernetes.NetworkMode.Move.{is_kept, remove_target_deployment-filter}

-- The object with containers appended, if it is the target.
pub receive : Text → List Container → RuntimeObject → RuntimeObject
receive target cs o =
    if is_named target o then record o { body = append_containers cs o.body } else o

-- The containers of the deployments of a name, in the order of the objects.
pub containers_of : Text → List RuntimeObject → List Container
containers_of name [] = []
containers_of name (o ∷ objs) =
    let rest = containers_of name objs in
    if is_named name o then body_containers o.body ++ rest else rest

body-receive :
    (cs ds : List Container) (b : ObjectBody)
    → append_containers ds (append_containers cs b) ≡ append_containers (cs ++ ds) b
body-receive cs ds (deployment d) =
    ap
      (λ x. deployment (record d {
        template = record d.template { spec = record d.template.spec { containers = x } };
      }))
      (append_assoc d.template.spec.containers cs ds)
body-receive cs ds b = refl

named-append :
    (name : Text) (cs : List Container) (o : RuntimeObject)
    → is_named name (record o { body = append_containers cs o.body }) ≡ is_named name o
named-append name cs o = ground arith

named-receive :
    (name target : Text) (cs : List Container) (o : RuntimeObject)
    → is_named name (receive target cs o) ≡ is_named name o
unfolding receive
named-receive name target cs o = ground (arith, named-append name cs o)

receive-receive :
    (target : Text) (cs ds : List Container) (o : RuntimeObject)
    → receive target ds (receive target cs o) ≡ receive target (cs ++ ds) o
unfolding receive
receive-receive target cs ds o = elim (Bool-cases (is_named target o)) [
  | inl e ↦
      rw (e, named-append target cs o, e)
        (ap {B = RuntimeObject} (λ b. record o { body = b }) (body-receive cs ds o.body))
  | inr e ↦ ground (arith, e)
]

get_next :
    (f : RuntimeObject → RuntimeObject) (pre : List RuntimeObject) (o : RuntimeObject)
    (rest : List RuntimeObject)
    → get_elem? (map f (pre ++ o ∷ rest)) (length pre) ≡ some (f o)
get_next f [] o rest = refl
get_next f (x ∷ pre) o rest = get_next f pre o rest

map-receive :
    (target : Text) (cs ds : List Container) (objs : List RuntimeObject)
    → map (receive target ds) (map (receive target cs) objs) ≡ map (receive target (cs ++ ds)) objs
map-receive target cs ds [] = refl
map-receive target cs ds (o ∷ objs) =
    ap₂ (λ x xs. x ∷ xs) (receive-receive target cs ds o) (map-receive target cs ds objs)

map-receive_nil : (target : Text) (objs : List RuntimeObject) → map (receive target []) objs ≡ objs
map-receive_nil target [] = refl
map-receive_nil target (o ∷ objs) = ap₂ (λ x xs. x ∷ xs) (same o) (map-receive_nil target objs)
  where
    unchanged : (b : ObjectBody) → append_containers [] b ≡ b
    unchanged (deployment d) =
        ap
          (λ x. deployment (record d {
            template = record d.template { spec = record d.template.spec { containers = x } };
          }))
          (append-nil d.template.spec.containers)
    unchanged b = refl

    same : (x : RuntimeObject) → receive target [] x ≡ x
    same x = unfold receive in ground (arith, unchanged x.body)

module _ (m : DeploymentMapping) (apart : m.source_deployment_name ≢ m.target_deployment_name) where
  -- A source deployment is not the target, and receives nothing.
  source-receive :
      (acc : List Container) (o : RuntimeObject)
      → is_named m.source_deployment_name o ≡ true
      → receive m.target_deployment_name acc o ≡ o
  unfolding receive
  source-receive acc o h = ground (
    arith,
    ==_iff o.meta.name m.source_deployment_name,
    ==_iff o.meta.name m.target_deployment_name,
  )

  -- One round of the loop, at a source deployment and at another object.
  step-source :
      (n i : ℕ) (objs : List RuntimeObject) (o : RuntimeObject)
      → get_elem? objs i ≡ some o
      → is_named m.source_deployment_name o ≡ true
      → add_containers_from (suc n) i m objs
        ≡ add_containers_from n
            (suc i)
            m
            (map (receive m.target_deployment_name (body_containers o.body)) objs)
  unfolding add_containers_from receive
  step-source n i objs o e h = ap (add_containers_from n (suc i) m) (rw e (rw h))

  step-other :
      (n i : ℕ) (objs : List RuntimeObject) (o : RuntimeObject)
      → get_elem? objs i ≡ some o
      → is_named m.source_deployment_name o ≡ false
      → add_containers_from (suc n) i m objs ≡ add_containers_from n (suc i) m objs
  unfolding add_containers_from
  step-other n i objs o e h = ap (add_containers_from n (suc i) m) (rw e (rw h))

  loop-receive :
      (pre rest : List RuntimeObject) (acc : List Container)
      → add_containers_from
          (length rest)
          (length pre)
          m
          (map (receive m.target_deployment_name acc) (pre ++ rest))
        ≡ map
            (receive m.target_deployment_name (acc ++ containers_of m.source_deployment_name rest))
            (pre ++ rest)
  unfolding containers_of
  loop-receive pre [] acc =
      unfold add_containers_from in
      ap (λ c. map (receive m.target_deployment_name c) (pre ++ [])) (sym (append-nil acc))
  loop-receive pre (o ∷ rest) acc =
      let at = get_next (receive m.target_deployment_name acc) pre o rest in
      let same = named-receive m.source_deployment_name m.target_deployment_name acc o in
      let e : (pre ++ o ∷ []) ++ rest ≡ pre ++ o ∷ rest = append_assoc pre (o ∷ []) rest in
      let l : length (pre ++ o ∷ []) ≡ suc (length pre) =
        omega (arith, length-append pre (o ∷ [])) in
      elim (Bool-cases (is_named m.source_deployment_name o)) [
        | inl h ↦
            let ih = loop-receive (pre ++ o ∷ []) rest (acc ++ body_containers o.body) in
            let next = rw (e, l) at ih in
            rw h (
              step-source (length rest) (length pre) _ o (at ∙ ap some (source-receive acc o h)) h
              ∙ ap (add_containers_from (length rest) (suc (length pre)) m) (
                  map-receive m.target_deployment_name acc (body_containers o.body)
                    (pre ++ o ∷ rest))
              ∙ next
              ∙ ap (λ c. map (receive m.target_deployment_name c) (pre ++ o ∷ rest))
                  (append_assoc acc (body_containers o.body)
                    (containers_of m.source_deployment_name rest)))
        | inr h ↦
            let ih = loop-receive (pre ++ o ∷ []) rest acc in
            let next = rw (e, l) at ih in
            rw h (step-other (length rest) (length pre) _ _ at (same ∙ h) ∙ next)
      ]

  pub merge-receive :
      (objs : List RuntimeObject)
      → add_containers_from_source_to_target_deployment objs m
        ≡ map (receive m.target_deployment_name (containers_of m.source_deployment_name objs)) objs
  unfolding add_containers_from_source_to_target_deployment
  merge-receive objs =
      ap (add_containers_from (length objs) 0 m)
        (sym (map-receive_nil m.target_deployment_name objs))
      ∙ loop-receive [] objs []

-- Moving for one mapping whose two names differ: every deployment of the target name receives the
-- containers of all the deployments of the source name, in order, and these disappear; every other
-- object stays as it is.
pub move-receive :
    (m : DeploymentMapping) (objs : List RuntimeObject)
    → m.source_deployment_name ≢ m.target_deployment_name
    → remove_deployment_transfered
        (m ∷ [])
        (merge_containers_into_destination_deployment (m ∷ []) objs)
      ≡ filter (is_kept m.source_deployment_name) (
          map (receive m.target_deployment_name (containers_of m.source_deployment_name objs)) objs)
unfolding remove_deployment_transfered merge_containers_into_destination_deployment
move-receive m objs apart =
    remove_target_deployment-filter m.source_deployment_name _
    ∙ ap (filter (is_kept m.source_deployment_name)) (merge-receive m apart objs)

receive-none :
    (target : Text) (cs : List Container) (objs : List RuntimeObject)
    → All (λ o. is_named target o ≡ false) objs
    → map (receive target cs) objs ≡ objs
unfolding receive
receive-none target cs [] h = refl
receive-none target cs (o ∷ objs) (ho, h) = ground (arith, ho, receive-none target cs objs h)

-- Where no deployment has the target name, the source deployments disappear all the same, and their
-- containers are in no object of the result.
pub move-missing_target :
    (m : DeploymentMapping) (objs : List RuntimeObject)
    → m.source_deployment_name ≢ m.target_deployment_name
    → All (λ o. is_named m.target_deployment_name o ≡ false) objs
    → remove_deployment_transfered
        (m ∷ [])
        (merge_containers_into_destination_deployment (m ∷ []) objs)
      ≡ filter (is_kept m.source_deployment_name) objs
move-missing_target m objs apart h =
    move-receive m objs apart
    ∙ ap (filter (is_kept m.source_deployment_name))
        (receive-none m.target_deployment_name _ objs h)

-- ===== src/System/Backing/Creations.antt =====
-- CreateCluster over the provider cloud, amid other steps, also between its judgement and its send:
-- what it answers with is backed, and all that was backed still is.
use mathlib.Core.List.{append-nil}
use provider_operator_exampl.System.Backing.{
  Sightings, Grows, KeepsInstances, IsBacked, Sound, Move, OtherSteps, cloud_step, edits, none_yet,
  and_then,
}
use provider_operator_exampl.System.Backing.Amid.{
  Course, host_amid, create_amid, sent_after, send_created,
}
use provider_operator_exampl.System.Backing.Leaves.{
  Leaves, LeavesAmid, SoundSince, amid-Leaves, carry-Leaves, OtherSteps-Sound,
}
use provider_operator_exampl.System.Backing.Calls.{more-IsBacked}
use provider_operator_exampl.Instance.Replies.{IsFineCluster}
use provider_operator_exampl.Host.{Host}
use provider_operator_exampl.Host.Server.{Server}
use provider_operator_exampl.Service.{Cluster}
use provider_operator_exampl.Service.Calm.{CalmHost}
use provider_operator_exampl.FakeClusters.{
  a_date, new_cluster, FakeClusters, CreateClusterRequest, judge, accepted,
}
use provider_operator_exampl.FakeClusters.Steps.{Reach, here, next}
use provider_operator_exampl.FakeClusters.Steps.CaughtUp.{Reach-clusters}
use provider_operator_exampl.FakeClusters.Steps.Growth.{all_clusters}
use provider_operator_exampl.FakeClusters.Steps.Invariant.{reachable-Inv}
use provider_operator_exampl.FakeClusters.Steps.Races.{find_cluster-mem, Reach-trans}
use provider_operator_exampl.FakeService.{create_cluster, send}
use provider_operator_exampl.FakeService.Calm.{create_cluster-ne-panic, create_cluster-refused}
use provider_operator_exampl.FakeService.Creation.{
  send-Reach, send-all_clusters, request_of, create_cluster-ok, create_cluster-judged,
}
use provider_operator_exampl.Api.{ProviderInstance}
use provider_operator_exampl.Base.{
  inr, [], ◌∷◌, ◌++◌, panicked, refused, answered, ran, some, refl, sym, ◌≡◌, List, Option,
}

module _ (H : Host) (V : Server H) (Seen : Sightings H) (Good : H.World → Type 0)
    (f₀ : FakeClusters) (L : KeepsInstances H V Seen) (K : CalmHost H Good) where
  -- The cluster can be read, and the cloud backs its identifier.
  abbrev pub IsFine : FakeClusters → Option Cluster → Type 0
  IsFine f =
      IsFineCluster (host_amid H V Seen Good) (SoundSince H V Seen Good f₀ f) (IsBacked H V Seen f)

  -- A cluster that is sent, judged by a former part of the list.
  sent-IsFine :
      (request : CreateClusterRequest) (seen more : List Cluster) (w : H.World) (f : FakeClusters)
      → f.clusters ≡ seen ++ more
      → judge request seen ≡ accepted (new_cluster request)
      → Sound H V Seen Good f₀ (w, f)
      → Leaves H V Seen Good f₀ IsFine f
          (send_created H V Seen Good (some (new_cluster request)) (w, f))
  sent-IsFine request seen more w f l j (good, r, backed) =
      let cluster = new_cluster request in
      let steps = send-Reach f request cluster seen more l j (reachable-Inv r.0).bounded in
      let grown : all_clusters (send cluster f) ≡ all_clusters f ++ (cluster ∷ []) =
        send-all_clusters cluster f in
      let keeps : Grows H V Seen f (send cluster f) =
        λ id. more-IsBacked H V Seen Good f₀ L id f (send cluster f) (cluster ∷ []) grown in
      let (found, q) = find_cluster-mem cluster.id (all_clusters f) [] cluster refl in
      let known : IsBacked H V Seen (send cluster f) cluster.id = inr (found, rw grown q) in
      (
        (((a_date, refl), (a_date, refl)), known),
        (good, (Reach-trans r.0 steps, Reach-trans r.1 steps), λ k y at. keeps _ (backed k y at)),
        keeps,
      )

  create_cluster-Leaves :
      (instance : ProviderInstance) (s : H.World × FakeClusters)
      → Sound H V Seen Good f₀ s
      → Leaves H V Seen Good f₀ IsFine s.1 (create_cluster H tt instance s)
  create_cluster-Leaves instance (w, f) sound = elim (ran (create_cluster H tt instance (w, f))) [
    | answered c (w₁, f₁) e ↦
        let (_, _, _, made, same, sent) = create_cluster-ok H instance w w₁ f f₁ c e in
        rw (e, made, same, sent)
          (sent-IsFine (request_of instance) f.clusters [] w f (sym (append-nil f.clusters))
            (create_cluster-judged H instance w w₁ f f₁ c e) sound)
    | refused x (w₁, f₁) e ↦
        let (a, b) = create_cluster-refused H Good instance w w₁ f f₁ x e in
        rw (e, a, b) (sound, λ id back. back)
    | panicked w₁ e ↦ absurd (create_cluster-ne-panic H Good instance (w, f) w₁ e)
  ]

  OtherSteps-Reach : {s t : H.World × FakeClusters} → OtherSteps H V Seen Good s t → Reach s.1 t.1
  OtherSteps-Reach none_yet = here
  OtherSteps-Reach (and_then r (cloud_step st)) = next (OtherSteps-Reach r) st
  OtherSteps-Reach (and_then r (edits w good keeps)) = OtherSteps-Reach r

  -- The send comes after a move, in whose course the list may have grown.
  sent_after-Leaves :
      (instance : ProviderInstance) (s t : H.World × FakeClusters) (vs : List (Move H V Seen Good))
      (g : FakeClusters)
      → Sound H V Seen Good f₀ s
      → Grows H V Seen g s.1
      → OtherSteps H V Seen Good s t
      → LeavesAmid H V Seen Good f₀ IsFine g
          (sent_after H V Seen Good (create_cluster H tt instance s) t vs)
  sent_after-Leaves instance (w, f) t vs g sound grown steps =
      elim (ran (create_cluster H tt instance (w, f))) [
        | answered c (w₁, f₁) e ↦
            let (_, _, _, made, _, _) = create_cluster-ok H instance w w₁ f f₁ c e in
            let (sound₂, more₂) = OtherSteps-Sound H V Seen Good f₀ sound steps in
            let (_, more, l) = Reach-clusters (reachable-Inv sound.1.0) (OtherSteps-Reach steps) in
            rw (e, made)
              (carry-Leaves H V Seen Good f₀ IsFine g t.1 vs
                (send_created H V Seen Good (some (new_cluster (request_of instance))) t)
                (λ id b. more₂ id (grown id b))
                (sent-IsFine (request_of instance) f.clusters more t.0 t.1 l
                  (create_cluster-judged H instance w w₁ f f₁ c e) sound₂))
        | refused x (w₁, f₁) e ↦
            let (a, b) = create_cluster-refused H Good instance w w₁ f f₁ x e in
            rw (e, a, b) (sound, grown)
        | panicked w₁ e ↦ absurd (create_cluster-ne-panic H Good instance (w, f) w₁ e)
      ]

  pub create_amid-Leaves :
      (instance : ProviderInstance) (g : FakeClusters) (w : Course H V Seen Good)
      → Sound H V Seen Good f₀ w.0
      → Grows H V Seen g w.0.1
      → LeavesAmid H V Seen Good f₀ IsFine g (create_amid H V Seen Good instance w)
  create_amid-Leaves instance g (s, []) sound grown =
      amid-Leaves H V Seen Good f₀ IsFine (create_cluster H tt instance) g
        (λ s s₁ _. create_cluster-Leaves instance s s₁) (s, []) sound grown
  create_amid-Leaves instance g (s, v ∷ []) sound grown =
      amid-Leaves H V Seen Good f₀ IsFine (create_cluster H tt instance) g
        (λ s s₁ _. create_cluster-Leaves instance s s₁) (s, v ∷ []) sound grown
  create_amid-Leaves instance g (s, v ∷ (u ∷ vs)) sound grown =
      let (sound₁, more) = OtherSteps-Sound H V Seen Good f₀ sound (v.by_steps s) in
      sent_after-Leaves instance (v.go s) (u.go (v.go s)) vs g sound₁ (λ id b. more id (grown id b))
        (u.by_steps (v.go s))

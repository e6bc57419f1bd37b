-- ===== src/Panel/Runs.antt =====
-- Starting and stopping the panel: it returns where the panel's hosts are known.
use cloudnative.Base.{
  String, true, Option, none, some, is_some, List, [], ◌∷◌, All, Result, need, ◌>>=◌, ◌≡◌, refl, ap,
  ◌∙◌,
}
use cloudnative.Base.Format.{format}
use cloudnative.Config.{Args}
use cloudnative.Machines.{Machines}
use cloudnative.MultiDc.{Xpanel, XpanelNode}
use cloudnative.Scripts.{Host, Work, Step}
use cloudnative.Scripts.Runs.{
  IsKnown, Runs, Runs-need, output_info-AllKnown, process_command_noenv-Runs,
}
use cloudnative.Panel.{each_node, noenv, each_xpanel, container_command, start_xpanel, stop_xpanel}

abbrev pub OnGiven {ℓ} : {A : Type ℓ} → (A → Type 0) → Option A → Type 0
OnGiven P none = Unit
OnGiven P (some a) = P a

-- The list of nodes is there, and each has a name and a host with a machine.
pub record IsPanelReady (machines : Machines) (x : Xpanel) : Type 0 where
  pub listed : List XpanelNode
  pub given : x.nodes ≡ some listed
  pub nodes : All (λ (n : XpanelNode). IsKnown machines n.ip × (is_some n.name ≡ true)) listed

module _ (host : Host) (args : Args) (machines : Machines) where
  pub each_node-Runs {ℓ} :
      {A : Type ℓ} (P : A → Type 0) (body : A → Step) (xs : List A)
      → ((a : A) → P a → Runs host args machines (body a))
      → All P xs
      → Runs host args machines (each_node body xs)
  unfolding each_node
  each_node-Runs P body [] h k w g = (w, refl, g)
  each_node-Runs P body (x ∷ xs) h k w g =
      let (v, e, g1) = h x k.0 w g in
      let (u, e1, g2) = each_node-Runs P body xs h k.1 v g1 in
      (u, ap (λ (r : Result Work). r >>= each_node body xs) e ∙ e1, g2)

  container_command-Runs :
      (info command : String) (n : XpanelNode)
      → IsKnown machines n.ip × (is_some n.name ≡ true)
      → Runs host args machines (container_command host args machines info command n)
  unfolding container_command noenv
  container_command-Runs info command n h =
      Runs-need host args machines "name" n.name _ h.1 (λ name w k.
        process_command_noenv-Runs host args machines n.ip "/" (format command (name ∷ [])) h.0 _
          (output_info-AllKnown host args machines (format info (n.ip ∷ [])) w k))

  each_xpanel-Runs :
      (body : Xpanel → XpanelNode → Step)
      → ((x : Xpanel) (n : XpanelNode)
          → IsKnown machines n.ip × (is_some n.name ≡ true)
          → Runs host args machines (body x n))
      → (o : Option Xpanel) → OnGiven (IsPanelReady machines) o
      → Runs host args machines (each_xpanel host args machines body o)
  unfolding each_xpanel
  each_xpanel-Runs body h none r w k = (w, refl, k)
  each_xpanel-Runs body h (some x) r w k =
      let (v, e, g) = each_node-Runs _ (body x) r.listed (h x) r.nodes w k in
      (
        v,
        ap
              (λ (o : Option (List XpanelNode)).
                need "nodes" o >>= λ nodes. each_node (body x) nodes w)
              r.given
            ∙ e,
        g,
      )

  pub start_xpanel-Runs :
      (o : Option Xpanel)
      → OnGiven (IsPanelReady machines) o
      → Runs host args machines (start_xpanel host args machines o)
  unfolding start_xpanel
  start_xpanel-Runs = each_xpanel-Runs _ (λ x. container_command-Runs _ _)

  pub stop_xpanel-Runs :
      (o : Option Xpanel)
      → OnGiven (IsPanelReady machines) o
      → Runs host args machines (stop_xpanel host args machines o)
  unfolding stop_xpanel
  stop_xpanel-Runs = each_xpanel-Runs _ (λ x. container_command-Runs _ _)

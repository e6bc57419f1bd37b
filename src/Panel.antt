-- ===== src/Panel.antt =====
-- cluster/setup_cluster_manager.py: the panel, which runs as a container on each of its nodes. One data
-- center has one node for it, which the validation puts into its list.
pub mod Runs
use cloudnative.Base.{
  String, ◌==◌, not, ◌&&◌, Option, none, some, List, [], ◌∷◌, ok, err, name_error, need, ◌>>=◌,
  if◌then◌else◌,
}
use cloudnative.Base.Text.{show}
use cloudnative.Base.Format.{format}
use cloudnative.Config.{Args}
use cloudnative.Machines.{Machines, get_machine}
use cloudnative.Scripts.{Host, Step, output_info, process_command_noenv}
use cloudnative.MultiDc.{Xpanel, XpanelNode}

-- A step for each node, one behind the other.
unfoldable pub each_node {ℓ} : {A : Type ℓ} → (A → Step) → List A → Step
each_node body [] w = ok w
each_node body (node ∷ nodes) w = do w1 ← body node w; each_node body nodes w1

-- A step for what may be left out.
abbrev pub if_given {ℓ} : {A : Type ℓ} → (A → Step) → Option A → Step
if_given step none w = ok w
if_given step (some a) w = step a w

-- `restart` of a container.
abbrev pub restart : Args → String
restart args = if args.autostart then "always" else "no"

module _ (host : Host) (args : Args) (machines : Machines) where
  noenv : String → String → String → Step
  noenv = process_command_noenv host args machines

  -- For an image from a file both branches read `mach`, which has no value in this function.
  unfoldable pub setup_xpanel_node : Xpanel → XpanelNode → Step
  setup_xpanel_node xpanel node w = do
    image_type ← need "imageType" xpanel.image_type
    if image_type == "file" then err (name_error "mach") else ok w

  -- A step for each node of the panel, if there is a panel.
  each_xpanel : (Xpanel → XpanelNode → Step) → Option Xpanel → Step
  unfolding each_node
  each_xpanel body =
      if_given λ xpanel w. do nodes ← need "nodes" xpanel.nodes; each_node (body xpanel) nodes w

  unfoldable pub setup_xpanel : Option Xpanel → Step
  unfolding each_xpanel setup_xpanel_node
  setup_xpanel = each_xpanel setup_xpanel_node

  install_xpanel_node : String → Xpanel → XpanelNode → Step
  unfolding noenv
  install_xpanel_node metaseeds xpanel node w = do
    name ← need "name" node.name
    port ← need "port" node.port
    image ← need "image" xpanel.image
    noenv node.ip "/"
        (format
          "sudo docker run -itd --restart=%s --env METASEEDS=%s --name %s -p %d:80 %s bash -c '/bin/bash /kunlun/start.sh'"
          (restart args ∷ metaseeds ∷ name ∷ show port ∷ image ∷ []))
        (output_info (format "setup xpanel on %s ..." (node.ip ∷ [])) w)

  unfoldable pub install_xpanel : String → Option Xpanel → Step
  unfolding each_xpanel install_xpanel_node
  install_xpanel metaseeds = each_xpanel (install_xpanel_node metaseeds)

  -- One command about the container of a node, with a line that says so.
  container_command : String → String → XpanelNode → Step
  unfolding noenv
  container_command info command node w = do
    name ← need "name" node.name
    noenv node.ip "/" (format command (name ∷ [])) (output_info (format info (node.ip ∷ [])) w)

  unfoldable pub stop_xpanel : Option Xpanel → Step
  unfolding each_xpanel container_command
  stop_xpanel =
      each_xpanel
        λ xpanel. container_command "Stopping xpanel on %s ..." "sudo docker container stop -f %s"

  unfoldable pub start_xpanel : Option Xpanel → Step
  unfolding each_xpanel container_command
  start_xpanel =
      each_xpanel
        λ xpanel. container_command "Starting xpanel on %s ..." "sudo docker container start %s"

  -- The file of an image goes too, where it was copied.
  clean_image_file : Xpanel → XpanelNode → Step
  unfolding noenv
  clean_image_file xpanel node w = do
    image_type ← need "imageType" xpanel.image_type
    if image_type == "file" && not args.cloud
        then (do
          mach ← get_machine machines node.ip
          file ← need "imageFile" xpanel.image_file
          noenv node.ip mach.basedir (format "rm -f %s" (file ∷ [])) w)
        else ok w

  clean_xpanel_node : Xpanel → XpanelNode → Step
  unfolding noenv container_command clean_image_file
  clean_xpanel_node xpanel node w = do
    w1 ← container_command "Cleaning xpanel on %s ..." "sudo docker container rm -f %s" node w
    image ← need "image" xpanel.image
    w2 ← noenv node.ip "/" (format "sudo docker image rm -f %s" (image ∷ [])) w1
    clean_image_file xpanel node w2

  unfoldable pub clean_xpanel : Option Xpanel → Step
  unfolding each_xpanel clean_xpanel_node
  clean_xpanel = each_xpanel clean_xpanel_node

-- ===== src/ImageBuild/Adoption.antt =====
-- A task run that is already there for an image build.
use automotive_dev_operator.Base.{
  ◌≡◌, Option, some, none, List, [], ◌∷◌, true, is_some, Exec, wrapping, ◌>>=◌,
}
use automotive_dev_operator.Kube.{Key, CtrlResult, Answers}
use automotive_dev_operator.ImageBuild.Types.{ImageBuild}
use automotive_dev_operator.ImageBuild.Client.{BuildClient, TaskRun}
use automotive_dev_operator.ImageBuild.Storage.{build_label}
use automotive_dev_operator.ImageBuild.TaskRuns.{start_new_build}
use automotive_dev_operator.ImageBuild.Controller.{first_live, adopt_task_run}
use automotive_dev_operator.ImageBuild.Server.{IsServer}

-- Every task run of the list is being deleted.
abbrev pub AreLeaving : List TaskRun → Type 0
AreLeaving [] = Unit {0}
AreLeaving (t ∷ ts) = (is_some t.deletion_timestamp ≡ true) × AreLeaving ts

module _ (C : BuildClient) (stored : C.World → Key → Option ImageBuild) (L : IsServer C stored)
    (A : Answers C.builds stored) (b : ImageBuild) where
  abbrev existing : Exec C.World (List TaskRun)
  existing = C.list_task_runs b.meta.namespace ((build_label, b.meta.name) ∷ [])

  abbrev choose : Option TaskRun → Exec C.World CtrlResult
  choose o = elim o [ none ↦ start_new_build C b | some t ↦ adopt_task_run C b t ]

  abbrev listed : Exec C.World CtrlResult
  listed =
      wrapping "failed to list existing task runs" existing >>= λ runs. choose (first_live runs)

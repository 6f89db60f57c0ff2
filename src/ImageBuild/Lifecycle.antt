-- ===== src/ImageBuild/Lifecycle.antt =====
-- The phases of an image build and its times, and what a write to the status does to them.
use automotive_dev_operator.Base.{
  ℕ, String, ◌≡◌, refl, ◌∙◌, ◌⊎◌, inl, inr, Bool, true, false, ◌||◌, ◌==◌, Option, some, none,
  is_some, arith,
}
use automotive_dev_operator.ImageBuild.Types.{ImageBuild}
use automotive_dev_operator.ImageBuild.Storage.{with_phase}
use automotive_dev_operator.ImageBuild.Progress.{completed}
use automotive_dev_operator.ImageBuild.Controller.{uploads_complete}
use automotive_dev_operator.ImageBuild.Server.{SameLife}

-- The diagram of the phases. Uploads are waited for exactly where the specification asks for them,
-- and end where the annotation says so.
pub data Edge (b : ImageBuild) : String → Type 0 where
  upload : b.status.phase ≡ "" → b.spec.input_files_server ≡ true → Edge b "Uploading"
  start : b.status.phase ≡ "" → b.spec.input_files_server ≡ false → Edge b "Building"
  uploaded : b.status.phase ≡ "Uploading" → uploads_complete b ≡ true → Edge b "Building"
  complete : b.status.phase ≡ "Building" → Edge b "Completed"
  fail : b.status.phase ≡ "Building" → Edge b "Failed"

abbrev pub is_final : String → Bool
is_final phase = (phase == "Completed") || (phase == "Failed")

abbrev pub has_begun : String → Bool
has_begun phase = (phase == "Building") || is_final phase

-- A build that has begun has a time of its start, and one that has ended has one of its end.
pub record IsTimed (b : ImageBuild) : Type 0 where
  pub started : has_begun b.status.phase ≡ true → is_some b.status.start_time ≡ true
  pub ended : is_final b.status.phase ≡ true → is_some b.status.completion_time ≡ true

-- What a reconciliation may make of an image build: its metadata and specification stay, the phase
-- stays or moves along one edge, a time that is set stays, and a timed build stays timed.
pub record Evolves (old new : ImageBuild) : Type 0 where
  pub meta : new.meta ≡ old.meta
  pub spec : new.spec ≡ old.spec
  pub phase : (new.status.phase ≡ old.status.phase) ⊎ Edge old new.status.phase
  pub start_time : (t : ℕ) → old.status.start_time ≡ some t → new.status.start_time ≡ some t
  pub completion_time :
      (t : ℕ) → old.status.completion_time ≡ some t → new.status.completion_time ≡ some t
  pub timed : IsTimed old → IsTimed new

pub same : (b : ImageBuild) → Evolves b b
same b = record {
  meta = refl;
  spec = refl;
  phase = inl refl;
  start_time = λ t h. h;
  completion_time = λ t h. h;
  timed = λ h. h;
}

-- Writes that leave phase and times alone.
pub Evolves-SameLife : (old b c : ImageBuild) → SameLife b c → Evolves old b → Evolves old c
Evolves-SameLife old b c s e = record {
  meta = s.meta ∙ e.meta;
  spec = s.spec ∙ e.spec;
  phase = rw s.phase e.phase;
  start_time = λ t h. s.start_time ∙ e.start_time t h;
  completion_time = λ t h. s.completion_time ∙ e.completion_time t h;
  timed = λ h. record {
    started = rw (s.phase, s.start_time) (e.timed h).started;
    ended = rw (s.phase, s.completion_time) (e.timed h).ended;
  };
}

some_of : (o : Option ℕ) → is_some o ≡ true → (t : ℕ) × (o ≡ some t)
some_of (some t) h = (t, refl)
some_of none h = ground arith

keep_start :
    (p text : String) (now : ℕ) (b : ImageBuild) (t : ℕ)
    → b.status.start_time ≡ some t
    → (with_phase p text now b).status.start_time ≡ some t
unfolding with_phase
keep_start p text now b t h = ground arith

keep_end :
    (p text : String) (now : ℕ) (b : ImageBuild) (t : ℕ)
    → b.status.completion_time ≡ some t
    → (with_phase p text now b).status.completion_time ≡ some t
unfolding with_phase
keep_end p text now b t h = ground arith

sets_start :
    (text : String) (now : ℕ) (b : ImageBuild)
    → is_some (with_phase "Building" text now b).status.start_time ≡ true
unfolding with_phase
sets_start text now b = ground arith

sets_end :
    (p text : String) (now : ℕ) (b : ImageBuild)
    → (p == "Building") ≡ false
    → is_final p ≡ true
    → is_some (with_phase p text now b).status.completion_time ≡ true
unfolding with_phase
sets_end p text now b n h = ground arith

-- The start that a building image build has is that of what it became.
begun :
    (old b : ImageBuild)
    → Evolves old b
    → old.status.phase ≡ "Building"
    → IsTimed old
    → (t : ℕ) × (b.status.start_time ≡ some t)
begun old b e building h =
    let (t, at) = some_of old.status.start_time (h.started (rw building refl)) in
    (t, e.start_time t at)

finish-IsTimed :
    (old b : ImageBuild) (p text : String) (now : ℕ)
    → Evolves old b
    → old.status.phase ≡ "Building"
    → (p == "Building") ≡ false
    → is_final p ≡ true
    → IsTimed old
    → IsTimed (with_phase p text now b)
finish-IsTimed old b p text now e building n f h =
    let (t, at) = begun old b e building h in
    record {
      started = λ _. rw (keep_start p text now b t at) refl;
      ended = λ _. sets_end p text now b n f;
    }

phase_of :
    (p text : String) (now : ℕ) (b : ImageBuild)
    → ((with_phase p text now b).status.phase ≡ p)
      × ((with_phase p text now b).meta ≡ b.meta)
      × ((with_phase p text now b).spec ≡ b.spec)
unfolding with_phase
phase_of p text now b = (refl, refl, refl)

Edge-IsTimed :
    (old b : ImageBuild) (p text : String) (now : ℕ)
    → Evolves old b
    → Edge old p
    → IsTimed old
    → IsTimed (with_phase p text now b)
unfolding with_phase
Edge-IsTimed old b p text now e (upload x y) h = record { started = λ n. cc; ended = λ n. cc }
Edge-IsTimed old b p text now e (start x y) h = record {
  started = λ _. sets_start text now b;
  ended = λ n. cc;
}
Edge-IsTimed old b p text now e (uploaded x y) h = record {
  started = λ _. sets_start text now b;
  ended = λ n. cc;
}
Edge-IsTimed old b p text now e (complete x) h =
    finish-IsTimed old b "Completed" text now e x refl refl h
Edge-IsTimed old b p text now e (fail x) h = finish-IsTimed old b "Failed" text now e x refl refl h

-- A write of the phase along an edge.
pub with_phase-Evolves :
    (old b : ImageBuild) (p text : String) (now : ℕ)
    → Edge old p
    → Evolves old b
    → Evolves old (with_phase p text now b)
with_phase-Evolves old b p text now edge e =
    let (phase, meta, spec) = phase_of p text now b in
    record {
      meta = meta ∙ e.meta;
      spec = spec ∙ e.spec;
      phase = rw phase (inr edge);
      start_time = λ t h. keep_start p text now b t (e.start_time t h);
      completion_time = λ t h. keep_end p text now b t (e.completion_time t h);
      timed = Edge-IsTimed old b p text now e edge;
    }

-- The write of the completion.
pub completed-Evolves :
    (old b : ImageBuild) (file : String) (now : ℕ)
    → old.status.phase ≡ "Building"
    → Evolves old b
    → Evolves old (completed file now b)
unfolding completed
completed-Evolves old b file now building e = record {
  meta = e.meta;
  spec = e.spec;
  phase = inr (complete building);
  start_time = e.start_time;
  completion_time = λ t h. rw (e.completion_time t h) refl;
  timed = λ h. record {
    started = λ _. rw (begun old b e building h).1 refl;
    ended = λ _. ground arith;
  };
}

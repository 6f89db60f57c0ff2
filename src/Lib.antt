-- ===== src/Lib.antt =====
-- The operator for automotive images: three reconcilers, which the controller runtime calls with the
-- name of a resource that may have changed, and which bring the cluster to what the resource asks for,
-- and an HTTP server that makes image builds for clients and hands them files and logs.
--
--   Image           internal/controller/image/controller.go verifies where an image is stored.
--   ImageBuild      internal/controller/imagebuild/controller.go runs a Tekton task run that builds an
--                   image, takes uploads for it before, and serves its artifact for some hours after.
--   OperatorConfig  internal/controller/operatorconfig/controller.go deploys the web interface, the
--                   build API and the Tekton tasks, and removes them before its resource goes.
--   BuildApi        internal/buildapi/server.go creates image builds, takes the uploads for them, streams
--                   their logs and serves their artifacts.
--
-- These parts share the cluster and nothing else. ImageBuild reads the size of its claims and the
-- configuration of its task run from the OperatorConfig resource. BuildApi makes the resource that
-- ImageBuild reconciles, sends files to the pods that it makes, and marks the uploads as complete by an
-- annotation that it waits for.
--
--   Base            texts, maps, errors as values, and actions `Exec W A` over a state of the cluster:
--                   an action that fails keeps what it wrote before. Triples and kept conditions.
--   Text            what the build API uses of Go's strings and path (Chars, Trim, Split, Fields, Paths),
--                   and lemmas on it (Splitting, Words, Cleaning). A text is a sequence of characters.
--   Kube            names and metadata of resources, the result of a reconciliation, and what a status
--                   patch does.
--   Image           Types (api/v1alpha1/image_types.go), Controller (Reconcile, handle...State,
--                   verify...Location, updateStatus, updateLastVerified), and the proofs in Lifecycle,
--                   Conditions, Liveness and Rounds.
--   ImageBuild      Types (api/v1alpha1/imagebuild_types.go), Client (the calls and the objects made),
--                   Storage (updateStatus, getOrCreateWorkspacePVC), Pods (createUploadPod,
--                   createArtifactPod, createArtifactServingResources, shutdownUploadPod), TaskRuns
--                   (createBuildTaskRun, startNewBuild), Progress (checkBuildProgress,
--                   updateArtifactInfo), Expiry (handleCompletedState), Controller (Reconcile and the
--                   other handlers). Server states what is assumed of the API server; Frame, Kept,
--                   Writes, Evolution and Reconcile carry conditions through the operations; Lifecycle
--                   has the diagram of phases, and Outcome, Adoption, Removal, Deadline and FileName the
--                   theorems.
--   OperatorConfig  Types (api/v1alpha1/operatorconfig_types.go), Objects (the managed objects), Deploy
--                   (deployWebUI, deployOSBuilds and what they call), Cleanup (cleanupWebUI,
--                   cleanupOSBuilds), Controller (Reconcile), and the proofs in Ownership, Deletion,
--                   Presence, Steps, Deployed, DeployedTasks and Status.
--   BuildApi        Types (internal/buildapi/types.go), Client (the calls, resolveNamespace,
--                   getClientFromRequest, isAuthenticated, resolveRequester), Objects (what
--                   createBuild makes of a request), Create (createBuild, createRegistrySecret,
--                   setOwnerRef), Queries (listBuilds, getBuild, getBuildTemplate), Uploads
--                   (uploadFiles, copyFileToPod), Files (the names and headers of artifacts),
--                   Artifacts (listArtifacts, streamArtifactPart, streamDefaultArtifact,
--                   streamArtifactByFilename), Sse (sendSSEEvent and the cutting into lines), Logs
--                   (streamLogs), SseLogs (streamLogsSSE), Router (createRouter, authMiddleware).
--                   Server states what is assumed of the API server; Described, Stored, Inputs, Promises and
--                   Accepted follow a creation, Requests the checks, Template the way back, Inside
--                   the paths and Complete the end of uploads, Lines, Events and Framing the events of a
--                   log, Waiting and Answering the wait for a pod, Auth the routes, Names the names
--                   of artifacts, and Handover what the reconciler does with a new build. A handler
--                   is an action whose result is a response.
--   Tests           servers that hold one resource, and the theorems at concrete resources.
--
-- The client of the API server is a parameter over an unknown state of the cluster, so it may answer
-- every call with any error and the cluster may change with every call. The theorems assume of it
-- what the records `IsLawful`, `IsServer`, `IsAdditive`, `Answers`, `IsApi`, `HasClock` and `Deletes` state: a
-- read returns what is stored, a patch of what is stored has been made or not, calls about other
-- objects leave the resource alone. Between two calls of one reconciliation no other client writes
-- the resource's status. A wait (`wait.PollUntilContextTimeout`) is a parameter too, which does what
-- its test does.
-- Times and
-- durations are numbers of nanoseconds, the product of hours and nanoseconds is taken modulo 2 ^ 64.
-- There is fuel in the printing of a number, whose digits are fewer than the number plus one, in the
-- wait for an artifact pod, where 62 rounds of two seconds are more than the two minutes of its
-- deadline, and in the loops that follow logs, whose number of rounds is an argument, since they go on
-- as long as the pod runs and the client listens. A log stream is the list of chunks that it delivers
-- and its end; a chunk ends between two characters.
--
-- Not modelled: logging, the registration of the reconcilers, the texts of manifests and of Tekton
-- tasks (internal/controller/operatorconfig/resources.go, internal/common/tasks), the parsing of
-- quantities, the start of the HTTP server and the pings beside its event stream, the client of the
-- build API (internal/buildapi/client), the command line (cmd/caib), the processes (cmd/main.go,
-- cmd/build-api), the random secrets (internal/common/secrets, cmd/init-secrets), and generated code.
-- The calls of gin, net/http, client-go and the standard library are parameters, or written out where their
-- result matters (the text functions, in Text).
pub mod Base
pub mod Kube
pub mod Text
pub mod Image
pub mod OperatorConfig
pub mod ImageBuild
pub mod BuildApi
mod Tests

-- ===== src/Lib.antt =====
-- Magalix agent: verification of its policy auditor, of the parents of the objects that it audits, of
-- the masking of pod specs, and of the packets and packages with its results.
--
-- The agent watches the objects of a Kubernetes cluster, evaluates policies on them and sends the
-- results to a gateway. The policy auditor keeps the constraints and their templates, selects the
-- constraints for an object, evaluates them, and caches the statuses it found. It asks the entities
-- watcher for the parents of an object. Packages for the gateway wait in a store with a priority queue,
-- from which workers send them over a connection that the client authorizes again whenever it is made.
-- The agent starts these parts, and stops them when a restart arrives.
--
-- Auditor/Opa.antt          auditor/opa-auditor/opa-auditor.go: New, UpdateConstraint, RemoveConstraint,
--                           UpdateConstraints
-- Auditor/Opa/Matching.antt the same file: matchEntity and getConstraints
-- Auditor/Opa/Audit.antt    the same file: Audit, UpdateCache, RemoveResource,
--                           CheckResourceStatusWithConstraint
-- Agent/Lifecycle.antt      agent/agent.go, agent/handlers.go: Start, Stop and handleRestart
-- Auditor/Cache.antt        auditor/opa-auditor/audit-results-cache.go
-- Agent/Governance.antt     agent/governance.go: constraints and audit results
-- Kuber/Keys.antt           kuber/utils.go: GetEntityKey
-- Kuber/Parents.antt        kuber/utils.go: ParentsStore, GetParents, RootParent
-- Kuber/Mask.antt           kuber/mask.go
-- Kuber/Kube.antt           kuber/kube.go: GetServerMinorVersion, GetClusterProvider
-- Kuber/Handlers.antt       kuber/observer.go: wrapHandler
-- Auditor/Events.antt       auditor/auditor.go: the handlers, the audit worker and its ticker
-- Entities/Deltas.antt      entities/entities.go: the queue of changes and deltasWorker
-- Entities/Watcher.antt     entities/entities.go: EntitiesWatcher, what the informers call, and its handlers
-- Kuber/Resources.antt      kuber/resources.go
-- Proto.antt                proto/packets.go, proto/kind.go: packets of constraints and audit results
-- Gateway/Governance.antt   gateway/governance.go: the listener of constraints and the batches of results,
--                           with ToPacket of agent/governance.go
-- Client/Queue.antt         client/pipe_store.go: Package and PriorityQueue, with container/heap over it
-- Client/PipeStore.antt     client/pipe_store.go: DefaultPipeStore
-- Client/Pipe.antt          client/pipe.go: Send, and the workers that send the packages of the store
-- Client/Session.antt       client/client.go, client/sender.go, client/auth.go: the client, hello and authorize,
--                           with the packets of Proto/Connect.antt
-- Client/Connection.antt    client/client.go, client/connect.go: WithBackoffLimit and onConnect
-- Client/Logging.antt       client/logging.go, and Pipe of client/client.go
-- Utils.antt                utils/utils.go
-- Value.antt                the values of JSON documents
-- Prelude.antt              numbers, lists, maps, and calls that may panic
--
-- Functions have the names of the source in snake case; struct fields are fields of records. A call that
-- may panic returns a `Run`, which is `ok` with a result or `panic`. Go maps are association lists, and a
-- range over a map takes the entries in their order there. The locks of the client, of its store
-- and of the parents store make their methods atomic; the auditor has none, and its methods and handlers are
-- taken as atomic all the same. So the state goes from call to call. Pointers are values where the source never writes through them after they
-- are shared; packages are written through, so they stand in a memory.
--
-- GetParents recurses through the owners of an object and takes fuel; the fuel that is asked for is the
-- rank of the object in an order that falls from an object to its owner. The loops of container/heap take
-- as many rounds as there are positions to the root or to the end of the queue, and the loop of Add as many
-- as the kind has packages. The buffer of audit results has its capacity as a field. Times, priorities
-- and counts are natural numbers.
--
-- The evaluation and the parsing of policies, the listers of the cluster and the random ids are arguments.
-- The gateway answers the n-th call of a client as an argument says. A pipe is a sequence of actions of
-- senders and workers; each is atomic because of a lock, or touches what no other goroutine does. The
-- goroutines of the agent share its cancel functions without a lock, so they interleave between a test, a
-- call and an assignment of one.
-- Not modelled: sockets, timers and the codecs of packets, and the text of log messages.
mod Prelude
pub mod Value
pub mod Agent
pub mod Kuber
pub mod Auditor
pub mod Proto
pub mod Gateway
pub mod Entities
pub mod Client
pub mod Utils

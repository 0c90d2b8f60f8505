-- ===== src/Lib.antt =====
-- Verification of the AI risk engine: the decision workflow, its governance, and the components
-- that guard it.
--
-- A request for an event (Api) is checked by a schema and by validators (Domain) and created once for an
-- idempotency key by the event service (Application). An event runs through the risk or the
-- compliance workflow of five nodes (Workflow), which asks the model and prompt registries for
-- approved versions and writes audit records (Governance), and comes to a decision; a person then
-- decides what the workflow does not approve (Governance/Approval). Roles and tenants are checked by
-- Security. Observability puts failures into categories, counts, charges and scores, and Scalability
-- holds the rate limiter, the circuit breaker, the distributed lock, the bulkhead, the partitioner,
-- the health monitor and the autoscaling policy.
--
-- Which file models what:
--   Errors                      app/domain/exceptions.py, app/governance/exceptions.py,
--                               app/security/exceptions.py, app/application/exceptions.py
--   Exec, Exec/Triple, Keeps    coroutines as state-passing actions that may raise, with the state
--                               beside the exception; specifications of actions
--   Json                        the values of `dict[str, Any]`
--   Domain/Event, Lifecycle     app/domain/models/event.py: transition_to
--   Domain/Requests             app/domain/schemas/event.py
--   Domain/Validators           app/domain/validators/event_validator.py
--   Security/Rbac, Tenant       app/security/rbac.py, app/security/tenant_context.py
--   Observability/Failures      app/observability/failure_classifier.py, the handlers of app/main.py
--   Observability/Costs         app/observability/cost_tracker.py
--   Observability/Metrics       app/observability/metrics.py
--   Observability/Evaluation    app/observability/evaluation.py
--   Observability/Tracing       app/observability/tracing.py: start_span as its two halves
--   Observability/Langfuse      app/observability/langfuse_client.py, and these collectors as the
--                               collaborators of a workflow
--   Scalability/CircuitBreaker  app/scalability/circuit_breaker.py: call is `admit`, then the
--                               guarded function, then `settle`; Schedule has overlapping calls
--   Scalability/RateLimiter     app/scalability/rate_limiter.py: incr_window, allow_request
--   Scalability/Autoscaling     app/scalability/autoscaling_policy.py: evaluate
--   Scalability/Bulkhead        app/scalability/bulkhead.py: `submit` of the callers, and the sections
--                               of the worker between its awaits
--   Scalability/Lock            app/scalability/distributed_lock.py: acquire, release
--   Scalability/Partitioning    app/scalability/workload_partitioning.py
--   Scalability/Health          app/scalability/health_monitor.py: system_health
--   Governance/Audit            app/governance/audit_logger.py and the records it writes
--   Governance/Approval         app/governance/approval_workflow.py
--   Governance/Models, Prompts  app/governance/model_registry.py, app/governance/prompt_registry.py
--   Workflow/State, Nodes       app/workflows/langgraph/state_models.py, app/workflows/langgraph/nodes
--   Workflow/Variant, Versions, run, run_node, run_all_nodes and _resolve_versions of
--   Sequence, Run, Services     app/workflows/langgraph/risk_workflow.py and of
--                               app/workflows/langgraph/compliance_workflow.py, which is one text up
--                               to the state, the nodes and some names, and what it is given;
--                               Run/Charges is this over Observability/Costs
--   Workflow/Risk               app/workflows/langgraph/risk_workflow.py as a variant of Run
--   Workflow/Compliance         app/workflows/langgraph/compliance_workflow.py as a variant of Run,
--                               and app/workflows/langgraph/nodes/compliance_nodes.py
--   Workflow/RedisStore         app/workflows/langgraph/workflow_state_store.py
--   Application/EventService    app/application/event_service.py and event_repository.py: create_event
--                               is the look at the cache, then `create_new`
--   Application/RedisRepository app/infrastructure/cache/event_repository_redis.py: save, get
--   Infrastructure/Database     app/infrastructure/database/event_repository_db.py and repository.py
--   Infrastructure/RedisClient  app/infrastructure/cache/redis_client.py: rate_limit, set_nx_ex,
--                               delete_if_value and the others
--   Infrastructure/Publisher    app/infrastructure/messaging/rabbitmq_publisher.py: connect, publish
--   Api/Events                  app/api/routers/events.py: create_event, get_event
--   Api/Routers                 app/api/routers/risk.py, app/api/routers/compliance.py
--   Api/Middleware              app/api/middleware.py, app/core/context.py: the three `dispatch`
--   Api/Dependencies            app/api/dependencies.py, app/workflows/dummy_workflow.py
--   Api/App                     app/main.py, app/api/routers/health.py, app/api/routers/tenant.py: a
--                               request through the middleware, a handler and the error handlers
--   Security/Encryption         app/security/encryption.py
--   Tests                       the theorems at concrete inputs, on collaborators in memory
--
-- Conventions. A collaborator behind a protocol (repositories, clocks, metrics, tracing) is a record
-- of actions on a world W of its own; what a theorem needs of it is a named law. A float is a whole
-- number of ten-thousandths, which the constants of the program are, on which arithmetic is exact; in
-- cost tracking, where the program sums, the floats are a parameter with no laws.
-- Readings of clocks are natural numbers. Every loop of the modelled code is a
-- structural recursion, so no fuel is used.
--
-- Not modelled: log lines, but the audit line of a request; what FastAPI does around a handler,
-- which is parsing, routing and writing a response; settings, logging and the declarations of tables,
-- which are configuration of packages.
pub mod Prelude
pub mod Errors
pub mod Exec
pub mod Json
pub mod Domain
pub mod Security
pub mod Observability
pub mod Scalability
pub mod Governance
pub mod Infrastructure
pub mod Workflow
pub mod Api
pub mod Application
pub mod Tests

-- ===== src/Client.antt =====
-- internal/client: the circuit breaker, the load balancers and the calls.
pub mod Breaker
pub mod LoadBalance
pub mod Keys
pub mod Invoke
pub mod Options
pub mod Batch

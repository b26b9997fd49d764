-- ===== src/Services.antt =====
-- The services that a call asks: billing (agent/billing_hooks.py), call capacity
-- (agent/call_capacity_api.py) and the bridge to a colleague (latency_lab/aicc_transfer.py).
pub mod Billing
pub mod Capacity
pub mod Bridge
mod Tests

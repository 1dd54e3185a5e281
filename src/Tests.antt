-- ===== src/Tests.antt =====
-- Runs of the model on concrete inputs: an anonymous and a stored surface, accounts, batches, samples
-- and proxy pools; and the worker, requests, webhooks and plans around them.
mod Account
mod Lease
mod Batch
mod Sampling
mod Proxy
mod Risk
mod Worker
mod Security
mod Api
mod Webhook
mod Monitoring
mod Rotation
mod Jobs
mod Browsers
mod Alerts
mod Analysis

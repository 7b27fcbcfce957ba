-- ===== src/Tests.antt =====
-- Runs of the code on small inputs, and the theorems at concrete values.
mod Samples
mod Protocol
mod Auth
mod Utils
mod Names
mod Tunnels
mod Requests
mod Client
mod World
mod Process
mod Session
mod Owning
mod Simulation
mod Logger
mod Cli
mod Dns
mod Asking

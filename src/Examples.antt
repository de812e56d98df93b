-- ===== src/Examples.antt =====
-- Concrete states, runs of the code on them, and the theorems at such states.
mod Machines
mod Processors
mod Pages
mod Descriptors
mod Devices
mod Tables
mod Ends
mod Userspace
mod Heaps
mod Processes
mod Boot
mod Console
mod Mappings
mod Launch
mod Switches

-- ===== src/Tests.antt =====
-- The theorems at concrete inputs. The keys, hashes and encoders of the samples are simple functions
-- with the properties that the code relies on.
mod Samples
mod OfFabric
mod OfAgent
mod OfReconcile
mod OfDaemon
mod OfHost
mod OfInstances
mod OfMcp
mod OfConnection
mod OfBackend
mod OfCockpit
mod OfDetect
